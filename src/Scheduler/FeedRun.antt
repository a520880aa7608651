-- ===== src/Scheduler/FeedRun.antt =====
-- `feedScheduler.run` of internal/scheduler/scheduler.go: one goroutine reads the ticks, the ends of
-- updates and the requests of one feed; each update runs in a goroutine of its own.
use transiter.Base.{
  Bool, Bool-cases, Option, arith, false, if◌then◌else◌, inl, inr, nat_keys, none, refl, some,
  string_keys, suc, true, ℕ, ◌-◌, ◌<◌, ◌↔◌, ◌≡◌, ◌≤◌, ◌⊎◌,
}
use transiter.Base.Int.{int_keys}

-- The variables of the loop, whether `done` is closed, and the number of goroutines with an update
-- that have not sent their result yet. A time that is not set is `none`.
pub record FeedRun : Type 0 where
  pub update_running : Bool
  pub last_successful_update : Option ℕ
  pub last_finished_update : Option ℕ
  pub pending_updates : ℕ
  pub closed : Bool

-- The state in which the loop starts.
unfoldable pub feed_start : FeedRun
feed_start = record {
  update_running = false;
  last_successful_update = none;
  last_finished_update = none;
  pending_updates = 0;
  closed = false;
}

-- `case <-t.C()`
unfoldable pub on_tick : FeedRun → FeedRun
on_tick f =
    if f.update_running
    then f
    else record f { update_running = true; pending_updates = suc f.pending_updates }

-- `case err := <-updateFinished`: a goroutine sends its error, or nil, and ends.
unfoldable pub on_update_finished : ℕ → Bool → FeedRun → FeedRun
on_update_finished now is_error f = record f {
  update_running = false;
  last_successful_update = if is_error then f.last_successful_update else some now;
  last_finished_update = some now;
  pending_updates = f.pending_updates - 1;
}

-- `case <-ctx.Done()`: the result of a running update is received before `done` is closed.
unfoldable pub on_done : FeedRun → FeedRun
on_done f = record f {
  pending_updates = if f.update_running then f.pending_updates - 1 else f.pending_updates;
  closed = true;
}

-- One pass of the loop. An end of an update is received when a goroutine has one to send, and so is
-- the one that a cancelled loop waits for.
pub data Step : FeedRun → FeedRun → Type 0 where
  tick : {f : FeedRun} → f.closed ≡ false → Step f (on_tick f)
  update_finished :
      {f : FeedRun} (now : ℕ) (is_error : Bool)
      → f.closed ≡ false
      → 0 < f.pending_updates
      → Step f (on_update_finished now is_error f)
  done :
      {f : FeedRun}
      → f.closed ≡ false
      → ((f.update_running ≡ false) ⊎ (0 < f.pending_updates))
      → Step f (on_done f)
  status_request : {f : FeedRun} → f.closed ≡ false → Step f f

-- The states that the loop reaches from its start.
pub data Reachable : FeedRun → Type 0 where
  started : Reachable feed_start
  stepped : {f g : FeedRun} → Reachable f → Step f g → Reachable g

abbrev running_count : Bool → ℕ
running_count false = 0
running_count true = 1

-- The goroutines with an update, by the variables of the loop.
abbrev Counts : FeedRun → Type 0
Counts f = f.pending_updates ≡ (if f.closed then 0 else running_count f.update_running)

Step-Counts : {f g : FeedRun} → Counts f → Step f g → Counts g
unfolding on_tick on_update_finished on_done
Step-Counts {f} h (tick o) = elim (Bool-cases f.update_running) [
  | inl r ↦ ground arith
  | inr r ↦ ground arith
]
Step-Counts {f} h (update_finished now e o p) = elim (Bool-cases f.update_running) [
  | inl r ↦ ground arith
  | inr r ↦ ground arith
]
Step-Counts {f} h (done o p) = elim (Bool-cases f.update_running) [
  | inl r ↦ ground arith
  | inr r ↦ ground arith
]
Step-Counts h (status_request o) = h

Reachable-Counts : {f : FeedRun} → Reachable f → Counts f
unfolding feed_start
Reachable-Counts started = refl
Reachable-Counts (stepped r s) = Step-Counts (Reachable-Counts r) s

-- The times of the updates: no success is later noted without an end.
abbrev pub HasEnd : FeedRun → Type 0
HasEnd f =
    (now : ℕ) → f.last_successful_update ≡ some now → (t : ℕ) × (f.last_finished_update ≡ some t)

Step-HasEnd : {f g : FeedRun} → HasEnd f → Step f g → HasEnd g
unfolding on_tick on_update_finished on_done
Step-HasEnd {f} h (tick o) now e = elim (Bool-cases f.update_running) [
  | inl r ↦ rw r (h now (rw r at e))
  | inr r ↦ rw r (h now (rw r at e))
]
Step-HasEnd {f} h (update_finished now e o p) n s = (now, refl)
Step-HasEnd {f} h (done o p) now e = h now e
Step-HasEnd h (status_request o) now e = h now e

Reachable-HasEnd : {f : FeedRun} → Reachable f → HasEnd f
unfolding feed_start
Reachable-HasEnd started = λ now e. absurd (cc e)
Reachable-HasEnd (stepped r s) = Step-HasEnd (Reachable-HasEnd r) s

-- However the passes of the loop follow each other: at most one update of the feed happens at a
-- time, `updateRunning` says of an open loop whether one does, no update is left when `done` is
-- closed, an open loop that is cancelled never waits for a result that no update will send, and a
-- time of a success comes with a time of an end.
pub feed_run_lem :
    (f : FeedRun)
    → Reachable f
    → (f.pending_updates ≤ 1)
      × (f.closed ≡ false → ((f.update_running ≡ true) ↔ (f.pending_updates ≡ 1)))
      × (f.closed ≡ true → f.pending_updates ≡ 0)
      × (f.closed ≡ false → Step f (on_done f))
      × HasEnd f
feed_run_lem f r =
    let h = Reachable-Counts r in
    elim (Bool-cases f.update_running) [
      | inl run ↦ (
        ground arith,
        λ o. ground arith,
        λ c. ground arith,
        λ o. done o (inr (ground arith)),
        Reachable-HasEnd r,
      )
      | inr idle ↦ (
        ground arith,
        λ o. ground arith,
        λ c. ground arith,
        λ o. done o (inl idle),
        Reachable-HasEnd r,
      )
    ]
