-- ===== src/Admin/Tests.antt =====
-- A database with room for one system, and requests to it.
use Prim.Native.String.{String}
use transiter.Base.{
  Bool-cases, Option, [], ap, arith, contains, false, if◌then◌else◌, inl, inr, nat_keys, none, refl,
  some, string_keys, true, ℕ, ◌==◌, ◌||◌, ◌∙◌, ◌∷◌, ◌≡◌,
}
use transiter.Admin.Feeds.{
  FeedQueries, SystemConfig, perform_install, update_required, upsert_system_metadata, write_feeds,
}
use transiter.Admin.Left.{write_feeds-left}
use transiter.Admin.Statuses.{SameStatuses, SetsStatus, StatusLaws, status_of}
use transiter.Admin.Systems.{
  SystemQueries, SystemRow, SystemStatus, installing, upsert_system_entry,
}
use transiter.Admin.Tasks.{Server, install_or_update, install_requested, no_step, then_step}
use transiter.Admin.Tracked.{IsTracked, busy_has_task, task_systems}
use transiter.Base.Int.{int_keys}
use transiter.Base.Maps.{Map, delete, lookup}
use transiter.Public.Results.{Queried, answer, no_rows, query_error}

abbrev row_of : SystemStatus → SystemRow
row_of status = record { pk = 1; name = "A"; status = status }

abbrev stored : Option SystemStatus → Queried SystemRow
stored none = query_error no_rows
stored (some status) = answer (row_of status)

abbrev one_system : SystemQueries (Option SystemStatus)
one_system = record {
  system_of = λ db id. if id == "a" then stored db else query_error no_rows;
  insert_system = λ db id name status. if id == "a" then some (some status) else none;
  update_system_status = λ db pk status. some (some status);
  delete_system = λ db pk. some none;
}

abbrev no_feeds : FeedQueries (Option SystemStatus) ℕ
no_feeds = record {
  update_system_name = λ db pk name. some db;
  update_service_maps = λ db pk configs. some db;
  list_feeds = λ db pk. some [];
  update_feed = λ db pk json. some db;
  insert_feed = λ db id pk json. db;
  delete_feed = λ db pk. db;
  update_now = λ db system_id feed_id. (true, db);
}

status_at :
    (db : Option SystemStatus) (id : String)
    → status_of one_system no_feeds db id ≡ (if id == "a" then db else none)
status_at none id = elim (Bool-cases (id == "a")) [
  | inl same ↦ rw same refl
  | inr apart ↦ rw apart refl
]
status_at (some status) id = elim (Bool-cases (id == "a")) [
  | inl same ↦ rw same refl
  | inr apart ↦ rw apart refl
]

sets_a :
    (db status : Option SystemStatus) (id : String)
    → (id == "a") ≡ true
    → SetsStatus one_system no_feeds db status id status
sets_a db status id at_a other =
    status_at status other
    ∙ ground (
      arith,
      at_a,
      status_at db other,
      string_keys.same_iff id "a",
      string_keys.same_iff other "a",
      string_keys.same_iff id other,
    )

is_a :
    (db : Option SystemStatus) (id : String) (row : SystemRow)
    → one_system.system_of db id ≡ answer row
    → (id == "a") ≡ true
is_a db id row known = elim (Bool-cases (id == "a")) [
  | inl same ↦ same
  | inr apart ↦ absurd (cc (rw apart at known))
]

keeps :
    (db after : Option SystemStatus)
    → some db ≡ some after
    → SameStatuses one_system no_feeds db after
keeps db after e id = ap (λ d. status_of one_system no_feeds d id) (cc e)

one_system-StatusLaws : StatusLaws one_system no_feeds
one_system-StatusLaws = record {
  inserts = λ db after id name status e. elim (Bool-cases (id == "a")) [
    | inl same ↦
        let written : after ≡ some status = ground (arith, rw same at e) in
        rw written (sets_a db (some status) id same)
    | inr apart ↦ absurd (cc (rw apart at e))
  ];
  updates = λ db after id row status known e.
      let written : after ≡ some status = ground (arith, e) in
      rw written (sets_a db (some status) id (is_a db id row known));
  deletes = λ db after id row known e.
      let gone : after ≡ none = ground (arith, e) in
      rw gone (sets_a db none id (is_a db id row known));
  keeps_name = λ db after pk name. keeps db after;
  keeps_maps = λ db after pk configs. keeps db after;
  keeps_update_feed = λ db after pk json. keeps db after;
  keeps_insert_feed = λ db id pk json other. refl;
  keeps_delete_feed = λ db pk id. refl;
  keeps_update_now = λ db system_id feed_id id. refl;
}

abbrev config_a : SystemConfig ℕ
config_a = record {
  name = "A";
  feeds = record { id = "feed"; json = some "json"; required_for_install = true } ∷ [];
  service_maps = 0;
}

abbrev empty_server : Server (Option SystemStatus) ℕ
empty_server = record { db = none; tasks = []; resets = []; failed_marks = [] }

abbrev installing_server : Server (Option SystemStatus) ℕ
installing_server = install_or_update one_system no_feeds empty_server "a" config_a false

empty_server-IsTracked : IsTracked one_system no_feeds empty_server
empty_server-IsTracked id busy = elim (Bool-cases (id == "a")) [
  | inl same ↦ absurd (cc (rw same at busy))
  | inr apart ↦ absurd (cc (rw apart at busy))
]

busy_has_task_example :
    (contains (task_systems one_system no_feeds installing_server.tasks) "a"
      || contains installing_server.failed_marks "a")
    ≡ true
unfolding install_or_update upsert_system_entry
busy_has_task_example =
    busy_has_task one_system no_feeds one_system-StatusLaws {first = empty_server}
      empty_server-IsTracked (then_step no_step (install_requested "a" config_a false)) "a" refl

-- A required feed that cannot be updated makes the install fail.
failed_install :
    (perform_install one_system no_feeds (some installing) "a" config_a) ≡ (true, some installing)
unfolding perform_install upsert_system_metadata update_required lookup
failed_install = refl

abbrev old_feeds : Map String ℕ
old_feeds = ("feed", 4) ∷ ("old", 5) ∷ []

abbrev left_feeds : Map String ℕ
left_feeds = ("old", 5) ∷ []

write_feeds-left_example : lookup "old" left_feeds ≡ some 5
unfolding lookup write_feeds delete
write_feeds-left_example =
    write_feeds-left no_feeds 1 config_a.feeds old_feeds left_feeds none none "old" refl
