-- ===== src/Update/Run.antt =====
-- `Update`, `run` and `getFeedContent` of internal/update/update.go. Clocks and log lines are left
-- out, and with them the latencies of a `FeedUpdate`.
pub mod Statuses
use Prim.Native.Char.{code}
use Prim.Native.String.{String}
use transiter.Base.{
  Bool, List, Option, [], false, if◌then◌else◌, length, nat_keys, none, not, some, string_keys, ℕ,
  ◌%◌, ◌&&◌, ◌==◌, ◌||◌, ◌∷◌,
}
use transiter.Base.Int.{int32_of_uint32, int_keys, pos, ℤ}
use transiter.Update.Config.{
  FeedConfig, gtfs_realtime, gtfs_static, normalize_feed_config, nyct_subway_csv,
}

pub data Attempt (A : Type 0) : Type 0 where
  success : A → Attempt A
  failure : String → Attempt A

pub data Status : Type 0 where
  unknown running updated skipped : Status
  failed_download_error failed_empty_feed failed_invalid_feed_config : Status
  failed_unknown_feed_type failed_parse_error failed_update_error failed_internal_error : Status

-- api.FeedUpdate
pub record FeedUpdate (Float : Type 0) : Type 0 where
  pub status : Status
  pub feed_config : Option (FeedConfig Float)
  pub download_http_status_code : Option ℕ
  pub content_length : Option ℤ
  pub content_hash : Option String
  pub error_message : Option String

-- db.Feed
pub record Feed : Type 0 where
  pub pk : ℕ
  pub system_pk : ℕ
  pub config : String
  pub last_content_hash : Option String

pub record HttpRequest : Type 0 where
  pub url : String
  pub timeout_ms : ℤ
  pub headers : List (String × String)

pub record HttpResponse : Type 0 where
  pub status_code : ℕ
  pub status : String
  pub body : Attempt (List ℕ)

-- What the package calls: the JSON and HTTP libraries, the hash, the queries on a database, and the
-- parsers and updaters of the three types of feed, which a parsed feed `Data` links.
pub record Calls : Type 1 where
  pub Float : Type 0
  pub Database : Type 0
  pub Data : Type 0
  pub unmarshal : String → Attempt (FeedConfig Float)
  pub new_request : HttpRequest → Attempt HttpRequest
  pub http_do : HttpRequest → Attempt HttpResponse
  pub hash_bytes : List ℕ → String
  pub parse : String → List ℕ → Attempt Data
  pub update_data : Feed → FeedConfig Float → Data → Database → Attempt Database
  pub mark_successful_update : ℕ → String → Database → Attempt Database
  pub mark_skipped_update : ℕ → Database → Attempt Database
  pub mark_failed_update : ℕ → Database → Attempt Database
  pub get_feed : String → String → Database → Attempt Feed

module _ (c : Calls) where
  -- The update, its error and the database afterwards.
  pub record Outcome : Type 0 where
    pub feed_update : FeedUpdate c.Float
    pub error : Option String
    pub database : c.Database

  unfoldable pub mark_failure : FeedUpdate c.Float → Status → String → c.Database → Outcome
  mark_failure u status err d = record {
    feed_update = record u { status = status; error_message = some err };
    error = some err;
    database = d;
  }

  unfoldable pub mark_success : FeedUpdate c.Float → Status → c.Database → Outcome
  mark_success u status d = record {
    feed_update = record u { status = status };
    error = none;
    database = d;
  }

  abbrev pub timeout_or_default : Option ℤ → ℤ
  timeout_or_default none = pos 5000
  timeout_or_default (some ms) = ms

  -- The bytes, or an error, and the status code that is noted.
  abbrev pub read_response : Attempt HttpResponse → Attempt (List ℕ) × Option ℕ
  read_response (failure err) = (failure err, none)
  read_response (success resp) =
      if resp.status_code == 200
      then (resp.body, some resp.status_code)
      else (failure resp.status, some resp.status_code)

  abbrev pub do_request : Attempt HttpRequest → Attempt (List ℕ) × Option ℕ
  do_request (failure err) = (failure err, none)
  do_request (success request) = read_response (c.http_do request)

  unfoldable pub get_feed_content : FeedConfig c.Float → Attempt (List ℕ) × Option ℕ
  get_feed_content fc = do_request (
      c.new_request (record {
        url = fc.url;
        timeout_ms = timeout_or_default fc.request_timeout_ms;
        headers = fc.http_headers;
      }))

  -- `pgx.BeginTxFunc`: the update and the mark of its success, both or neither.
  abbrev pub commit : FeedUpdate c.Float → c.Database → Attempt c.Database → Outcome
  commit u d (failure err) = mark_failure u failed_update_error err d
  commit u d (success d') = mark_success u updated d'

  abbrev pub mark_in_transaction : Feed → String → Attempt c.Database → Attempt c.Database
  mark_in_transaction feed hash (failure err) = failure err
  mark_in_transaction feed hash (success d) = c.mark_successful_update feed.pk hash d

  unfoldable pub write_parsed :
      Feed
      → FeedConfig c.Float
      → String
      → FeedUpdate c.Float
      → c.Database
      → Attempt c.Data
      → Outcome
  unfolding mark_failure mark_success
  write_parsed feed fc hash u d (failure err) = mark_failure u failed_parse_error err d
  write_parsed feed fc hash u d (success parsed) =
      commit u d (mark_in_transaction feed hash (c.update_data feed fc parsed d))

  abbrev pub is_known_type : String → Bool
  is_known_type t = t == gtfs_static || t == gtfs_realtime || t == nyct_subway_csv

  unfoldable pub is_unchanged : Option String → String → Bool → Bool
  is_unchanged none hash force = false
  is_unchanged (some last) hash force = last == hash && not force

  -- From the content on.
  unfoldable pub run_content :
      Feed → Bool → FeedConfig c.Float → FeedUpdate c.Float → c.Database → List ℕ → Outcome
  unfolding is_unchanged write_parsed
  run_content feed force fc u d [] =
      mark_failure (record u { content_length = some (pos 0) }) failed_empty_feed
        "empty feed content" d
  run_content feed force fc u d (b ∷ bs) =
      let hash = c.hash_bytes (b ∷ bs) in
      let u' : FeedUpdate c.Float = record u {
        content_length = some (int32_of_uint32 (length (b ∷ bs) % 4_294_967_296));
        content_hash = some hash;
      } in
      if is_unchanged feed.last_content_hash hash force
      then mark_success u' skipped d
      else if is_known_type fc.feed_type
      then write_parsed feed fc hash u' d (c.parse fc.feed_type (b ∷ bs))
      else mark_failure u' failed_unknown_feed_type "unknown feed type" d

  abbrev pub run_download :
      Feed
      → Bool
      → FeedConfig c.Float
      → FeedUpdate c.Float
      → c.Database
      → Attempt (List ℕ)
      → Outcome
  run_download feed force fc u d (failure err) = mark_failure u failed_download_error err d
  run_download feed force fc u d (success content) = run_content feed force fc u d content

  abbrev pub no_update : FeedUpdate c.Float
  no_update = record {
    status = unknown;
    feed_config = none;
    download_http_status_code = none;
    content_length = none;
    content_hash = none;
    error_message = none;
  }

  abbrev pub run_config : Feed → Bool → c.Database → Attempt (FeedConfig c.Float) → Outcome
  run_config feed force d (failure err) = mark_failure no_update failed_invalid_feed_config err d
  run_config feed force d (success config) =
      let fc = normalize_feed_config config in
      let (content, code) = get_feed_content fc in
      run_download feed force fc
        (record no_update { feed_config = some fc; download_http_status_code = code }) d content

  unfoldable pub run : Feed → Bool → c.Database → Outcome
  unfolding run_content get_feed_content
  run feed force d = run_config feed force d (c.unmarshal feed.config)

  -- The database after a query whose error is only logged.
  abbrev pub or_unchanged : c.Database → Attempt c.Database → c.Database
  or_unchanged d (failure err) = d
  or_unchanged d (success d') = d'

  unfoldable pub mark_feed : ℕ → Status → c.Database → c.Database
  mark_feed pk updated d = d
  mark_feed pk skipped d = or_unchanged d (c.mark_skipped_update pk d)
  mark_feed pk status d = or_unchanged d (c.mark_failed_update pk d)

  abbrev pub update_found : Bool → c.Database → Attempt Feed → Attempt Outcome
  update_found force d (failure err) = failure err
  update_found force d (success feed) =
      let o = run feed force d in
      success (record o { database = mark_feed feed.pk o.feed_update.status o.database })

  -- `Update`; a failure where no feed was found, and no update is returned.
  unfoldable pub update : String → String → Bool → c.Database → Attempt Outcome
  unfolding run mark_feed
  update system_id feed_id force d = update_found force d (c.get_feed system_id feed_id d)
