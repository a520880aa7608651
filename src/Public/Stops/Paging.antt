-- ===== src/Public/Stops/Paging.antt =====
-- ListStops of internal/public/endpoints/stop.go as a whole: how many stops a reply has, what
-- following the ID of the next page gives, and the limit that panics.
use Prim.Native.String.{String}
use transiter.Base.{
  Bool, List, Option, ap, arith, contains, false, length, map, nat_keys, nodup, none, not, refl,
  some, string_keys, suc, true, ℕ, ◌&&◌, ◌<◌, ◌==◌, ◌||◌, ◌≡◌,
}
use transiter.Base.Int.{int_keys, ltb_ℤ, pos, ℤ}
use transiter.Public.Pages.{
  TextOrder, cut_page, from_id, limit_rows, next_int32, order_by_id, page_limit, page_query, take,
  where_rows,
}
use transiter.Public.Pages.Order.{increasing-order_by_id, increasing-where}
use transiter.Public.Pages.Walk.{GivesPages, view_page, walk_pages, walk_pages-all}
use transiter.Public.Reference.{Generator, PublicLibrary}
use transiter.Public.Results.{
  DbSystem, Queried, Response, and_then, answer, failed, found, get_system, panics, reply,
}
use transiter.Public.Stops.{DbStop, ListStopsParams, ListStopsRequest, Skip, StopQueries}
use transiter.Public.Stops.Build.{build_stops_response}
use transiter.Public.Stops.Consistent.{Consistent}
use transiter.Public.Stops.Handlers.{
  check, invalid_filters, is_nonempty, list_stops_reply, read_stops,
}
use transiter.Public.Stops.Response.{ApiStop}
use transiter.Public.Stops.Total.{build_stops_response-total}
use transiter.Realtime.Alerts.Partition.{ids}

-- Whether a list has at most a number of elements, which an int32 gives.
abbrev pub fits {ℓ} : {A : Type ℓ} → List A → ℤ → Bool
fits xs n = not (ltb_ℤ n (pos (length xs)))

-- `WHERE system_pk = ... AND id >= ... AND (NOT filter_by_id OR id = ANY(...)) AND ...`, on the
-- stops of one system.
unfoldable pub stop_selected :
    {R : Type 0} → Bool → List String → Bool → List String → DbStop R → Bool
stop_selected filter_by_id stop_ids filter_by_type types s =
    (not filter_by_id || contains stop_ids s.id)
    && (not filter_by_type || contains types s.type_name)

unfoldable pub list_stops_query :
    {R : Type 0} → TextOrder → List (DbStop R) → ListStopsParams → Queried (List (DbStop R))
unfolding page_query stop_selected
list_stops_query o table p =
    page_query o (λ s. s.id) (stop_selected p.filter_by_id p.stop_ids p.filter_by_type p.types)
      table p.first_stop_id p.num_stops

module _ {lib : PublicLibrary} {R : Type 0} where
  -- The request from another first ID on.
  abbrev pub from_first : ListStopsRequest lib R → String → ListStopsRequest lib R
  from_first req first = record req { first_id = some first }

  -- The stops of a table that a request selects, in the order of their IDs.
  abbrev pub selected_stops : TextOrder → List (DbStop R) → ListStopsRequest lib R → List (DbStop R)
  selected_stops o table req =
      where_rows
        (stop_selected (req.only_return_specified_ids || req.filter_by_id) req.ids
          req.filter_by_type (map lib.stop_type_name req.types))
        (order_by_id o (λ s. s.id) table)

  abbrev pub ValidFilters : ListStopsRequest lib R → Type 0
  ValidFilters req =
      invalid_filters (req.only_return_specified_ids || req.filter_by_id) (is_nonempty req.ids)
        req.filter_by_type (is_nonempty req.types)
      ≡ none

abbrev pub reply_ids :
    {R : Type 0}
    → Response (List (ApiStop R) × Option String)
    → Response (List String × Option String)
reply_ids r = and_then r (λ p. reply (map (λ s. s.id) p.0, p.1))

module _ (lib : PublicLibrary) (g : Generator) {R : Type 0} (q : StopQueries lib R) (now : lib.Time)
    (known_route : ℕ → Bool) (ok : Consistent q known_route) where
  ids_of_page :
      (system_id : String) (skip : Skip) (cut : Response (List (DbStop R) × Option String))
      → reply_ids (
          and_then cut (λ p.
            and_then
              (build_stops_response lib g q now system_id p.0 skip)
              (λ api_stops. reply (api_stops, p.1))))
        ≡ and_then cut (view_page (λ s. s.id))
  ids_of_page system_id skip (reply (page, next)) =
      let (a, built, ids) =
        build_stops_response-total lib g system_id q known_route ok now page skip in
      rw built (ap (λ i. reply (i, next)) ids)
  ids_of_page system_id skip (failed e) = refl
  ids_of_page system_id skip panics = refl

  module _ (o : TextOrder) (table : List (DbStop R)) (system : DbSystem)
      (req : ListStopsRequest lib R) (max_entities : ℤ) (n : ℕ) (by_id : req.by_distance ≡ false)
      (limit : page_limit max_entities req.limit ≡ pos (suc n)) (bounded : suc n < 2_147_483_647)
      (valid : ValidFilters req) (known : q.query_system req.system_id ≡ answer system)
      (reads : (p : ListStopsParams) → q.list_stops p ≡ list_stops_query o table p) where
    -- Each page has the IDs of stops of the table, from the requested ID on.
    list_stops-pages :
        GivesPages o
          (λ s. s.id)
          (λ s. s.id)
          (λ first. reply_ids (list_stops_reply lib g q now max_entities (from_first req first)))
          (selected_stops o table req)
          n
    unfolding list_stops_reply read_stops list_stops_query page_query limit_rows get_system found
        check next_int32
    list_stops-pages first =
        let below : (pos (suc n) == pos 2_147_483_647) ≡ false = ground (arith, bounded) in
        rw known (
          rw valid (
            rw limit (
              rw by_id (
                rw (reads _) (
                  rw below (
                    ids_of_page req.system_id req.skip (
                      cut_page (λ s. s.id) (pos (suc (suc n)))
                        (take (suc (suc n))
                          (from_id o (λ s. s.id) first (selected_stops o table req))))))))))

    -- In a search by ID with valid filters on a consistent database whose stops have distinct IDs, and
    -- with a limit of a page that is positive and below the largest int32 less one, a client that
    -- starts at an ID and follows the ID of the next page gets every selected stop from that ID on,
    -- each once and in the order of the IDs, and comes to a page without a next one after at most one
    -- request more than it gets stops.
    pub list_stops-walk_pages :
        (distinct : nodup (map (λ s. s.id) table) ≡ true) (first : String) (fuel : ℕ)
        (enough : length (from_id o (λ s. s.id) first (selected_stops o table req)) < fuel)
        → walk_pages
            (λ id. reply_ids (list_stops_reply lib g q now max_entities (from_first req id)))
            fuel
            first
          ≡ some (map (λ s. s.id) (from_id o (λ s. s.id) first (selected_stops o table req)))
    list_stops-walk_pages distinct first fuel enough =
        walk_pages-all o (λ s. s.id) (λ s. s.id) _ (selected_stops o table req) n list_stops-pages
          (increasing-where o (λ s. s.id) _ (order_by_id o (λ s. s.id) table)
            (increasing-order_by_id o (λ s. s.id) table distinct))
          fuel first enough
