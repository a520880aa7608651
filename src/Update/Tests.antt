-- ===== src/Update/Tests.antt =====
-- The theorems on updates at a small feed.
use transiter.Base.{
  List, [], false, length, nat_keys, none, refl, some, string_keys, suc, ℕ, ◌+◌, ◌∷◌, ◌≡◌,
}
use transiter.Base.Int.{int_keys}
use transiter.Update.Config.{
  FeedConfig, get_feed_type, normalize_feed_config, normalize_feed_config_lem, policy_default,
  use_accessibility_info_from_feed,
}
use transiter.Update.Run.{
  Calls, Feed, HttpResponse, failure, get_feed_content, is_unchanged, mark_success, run,
  run_content, success, updated, write_parsed,
}
use transiter.Update.Run.Statuses.{IsExplained, run-IsExplained}

abbrev config : FeedConfig ℕ
config = record {
  id = "feed";
  feed_type = "";
  parser = "GTFS_STATIC";
  url = "http://feed";
  request_timeout_ms = none;
  http_headers = [];
  required_for_install = none;
  scheduling_policy = policy_default;
  update_period_s = none;
  periodic_update_period_ms = none;
  daily_update_time = "";
  daily_update_timezone = "";
  nyct_subway_options = none;
}

abbrev ok_response : HttpResponse
ok_response = record { status_code = 200; status = "200 OK"; body = success (1 ∷ 2 ∷ []) }

-- A database is the number of its writes.
abbrev calls : Calls
calls = record {
  Float = ℕ;
  Database = ℕ;
  Data = List ℕ;
  unmarshal = λ s. success config;
  new_request = λ r. success r;
  http_do = λ r. success ok_response;
  hash_bytes = λ bs. "hash";
  parse = λ t bs. success bs;
  update_data = λ feed fc parsed d. success (d + length parsed);
  mark_successful_update = λ pk hash d. success (suc d);
  mark_skipped_update = λ pk d. success (suc d);
  mark_failed_update = λ pk d. success (suc d);
  get_feed = λ system_id feed_id d. failure "unknown feed";
}

abbrev feed : Feed
feed = record { pk = 5; system_pk = 1; config = "{}"; last_content_hash = some "other" }

updated_status :
    ((run calls feed false 10).feed_update.status ≡ updated)
    × ((run calls feed false 10).database ≡ 13)
unfolding run run_content get_feed_content is_unchanged write_parsed mark_success
    normalize_feed_config
updated_status = (refl, refl)

run-IsExplained_example : IsExplained calls feed false 10 (run calls feed false 10)
run-IsExplained_example = run-IsExplained calls feed false 10

normalize_feed_config_lem_example :
    (get_feed_type (some (normalize_feed_config config)) ≡ get_feed_type (some config))
    × (use_accessibility_info_from_feed (some (normalize_feed_config config))
        ≡ use_accessibility_info_from_feed (some config))
    × ((normalize_feed_config config).feed_type ≡ get_feed_type (some config))
    × (normalize_feed_config (normalize_feed_config config) ≡ normalize_feed_config config)
normalize_feed_config_lem_example = normalize_feed_config_lem config
