-- ===== src/Scheduler/Tests.antt =====
-- The theorems on the scheduler at small systems.
use Prim.Native.Char.{Char, code}
use Prim.Native.String.{String}
use transiter.Base.{
  List, [], ap, arith, contains, false, if◌then◌else◌, nat_keys, none, refl, some, string_keys, suc,
  true, zero, ℕ, ◌*◌, ◌==◌, ◌↔◌, ◌∷◌, ◌≡◌, ◌≤◌, ◌⊎◌,
}
use transiter.Base.Int.{int_keys, pos}
use transiter.Base.Maps.{lookup}
use transiter.Scheduler.FeedRun.{
  FeedRun, HasEnd, Reachable, Step, feed_run_lem, feed_start, on_done, on_tick, on_update_finished,
  started, stepped, tick, update_finished,
}
use transiter.Scheduler.Policy.{GoTime, normalize_scheduling_policy}
use transiter.Scheduler.Policy.Runnable.{
  IsRunnable, TimeLaws, normalize_scheduling_policy-IsRunnable,
}
use transiter.Scheduler.Systems.{
  Services, SystemConfigResponse, normalized_feeds, reset_all, system_error, system_feeds,
  system_not_found,
}
use transiter.Scheduler.Systems.ResetAllLaws.{answered, expected_feeds, reset_all_lem, scheduler_of}
use transiter.Scheduler.Ticker.{
  Running, TickerReach, after_periodic, in_select, selecting, sending, stopping, together,
}
use transiter.Scheduler.Ticker.Stuck.{
  CannotStep, CannotStep-iff, IsBlocked, IsStopped, blocked_reached,
}
use transiter.Update.Config.{
  FeedConfig, SchedulingPolicy, policy_daily, policy_default, policy_none,
}

abbrev unary : ℕ → String
unary zero = String.[]
unary (suc n) = String.◌∷◌ "1" (unary n)

abbrev read_unary : String → ℕ
read_unary String.[] = 0
read_unary (String.◌∷◌ c s) = suc (read_unary s)

abbrev print_time : ℕ → ℕ → String
print_time zero m = String.◌∷◌ ":" (unary m)
print_time (suc h) m = String.◌∷◌ "1" (print_time h m)

abbrev add_char : Char → List String → List String
add_char c [] = []
add_char c (piece ∷ pieces) = String.◌∷◌ c piece ∷ pieces

abbrev split : String → List String
split String.[] = "" ∷ []
split (String.◌∷◌ c s) =
    let later = split s in if code c == 58 then "" ∷ later else add_char c later

-- A library that writes numbers in unary and whose only time zone is UTC.
abbrev go_time : GoTime
go_time = record {
  Float = ℕ;
  float_is_zero = λ n. n == 0;
  int64_of_millis = λ n. pos (n * 1000);
  split_colon = split;
  trim_space = λ s. s;
  atoi = λ s. some (pos (read_unary s));
  sprintf_time = print_time;
  load_location = λ s. s == "UTC";
}

split-unary : (n : ℕ) → split (unary n) ≡ unary n ∷ []
split-unary zero = refl
split-unary (suc n) = rw (split-unary n) refl

split-print_time : (h m : ℕ) → split (print_time h m) ≡ unary h ∷ unary m ∷ []
split-print_time zero m = rw (split-unary m) refl
split-print_time (suc h) m = rw (split-print_time h m) refl

read_unary-unary : (n : ℕ) → read_unary (unary n) ≡ n
read_unary-unary zero = refl
read_unary-unary (suc n) = ap suc (read_unary-unary n)

go_time-TimeLaws : TimeLaws go_time
go_time-TimeLaws = record {
  pad = unary;
  splits = split-print_time;
  reads = λ n small. ap (λ k. some (pos k)) (read_unary-unary n);
}

abbrev feed_config : String → SchedulingPolicy → FeedConfig ℕ
feed_config id policy = record {
  id = id;
  feed_type = "GTFS_STATIC";
  parser = "";
  url = "";
  request_timeout_ms = none;
  http_headers = [];
  required_for_install = none;
  scheduling_policy = policy;
  update_period_s = none;
  periodic_update_period_ms = none;
  daily_update_time = "at noon";
  daily_update_timezone = "Nowhere";
  nyct_subway_options = none;
}

normalize_scheduling_policy-IsRunnable_example :
    IsRunnable go_time 2 "at noon"
      (normalize_scheduling_policy go_time (feed_config "f" policy_default) 2 []).scheduling_policy
      (normalize_scheduling_policy go_time (feed_config "f" policy_default) 2 [])
normalize_scheduling_policy-IsRunnable_example =
    normalize_scheduling_policy-IsRunnable go_time (feed_config "f" policy_default) 2 []
      go_time-TimeLaws (omega arith) refl

-- An update that is running when the next tick comes and then ends.
abbrev two_ticks : FeedRun
two_ticks = on_update_finished 20 false (on_tick (on_tick feed_start))

two_ticks-Reachable : Reachable two_ticks
unfolding on_tick feed_start
two_ticks-Reachable =
    stepped (stepped (stepped started (tick refl)) (tick refl))
      (update_finished 20 false refl (omega arith))

feed_run_lem_example :
    (two_ticks.pending_updates ≤ 1)
    × (two_ticks.closed ≡ false
        → ((two_ticks.update_running ≡ true) ↔ (two_ticks.pending_updates ≡ 1)))
    × (two_ticks.closed ≡ true → two_ticks.pending_updates ≡ 0)
    × (two_ticks.closed ≡ false → Step two_ticks (on_done two_ticks))
    × HasEnd two_ticks
feed_run_lem_example = feed_run_lem two_ticks two_ticks-Reachable

abbrev config_of : String → SystemConfigResponse go_time
config_of id =
    if id == "a"
    then system_feeds (feed_config "f" policy_daily ∷ feed_config "g" policy_none ∷ [])
    else if id == "b"
    then system_not_found
    else system_error "no answer"

abbrev services : Services go_time
services = record {
  get_system_config = config_of;
  list_agencies = λ id. some [];
  list_systems = some ("a" ∷ "b" ∷ "c" ∷ []);
}

abbrev systems : List String
systems = "a" ∷ "b" ∷ "c" ∷ []

answered_example : answered go_time services systems ≡ "a" ∷ "b" ∷ []
unfolding normalize_scheduling_policy normalized_feeds
answered_example = refl

reset_all_lem_example :
    ((k : String)
      → lookup k (reset_all go_time services (("d", []) ∷ [])).1 ≡ (
          if contains (answered go_time services systems) k
          then scheduler_of go_time services (expected_feeds go_time services k)
          else none))
    × (((reset_all go_time services (("d", []) ∷ [])).0 ≡ none)
        ↔ (answered go_time services systems ≡ systems))
reset_all_lem_example = reset_all_lem go_time services (("d", []) ∷ []) systems refl

abbrev blocked : Running (ℕ × ℕ)
blocked = together (3, 3) sending stopping

CannotStep-iff_example :
    (CannotStep (after_periodic 10) blocked ↔ (IsStopped blocked ⊎ IsBlocked blocked))
    × TickerReach (after_periodic 10) (together (3, 3) in_select selecting) blocked
CannotStep-iff_example =
    CannotStep-iff (after_periodic 10) (3, 3) (blocked_reached (after_periodic 10) (3, 3))
