-- ===== src/Lib.antt =====
-- Verification of Transiter, a backend service that reads GTFS feeds of transit systems into a
-- database and serves them. Paths are from the root of the repository.
--
-- The program. internal/scheduler asks for updates of feeds; internal/update downloads a feed, and
-- hands it to internal/update/static, internal/update/realtime or internal/update/nyctsubwaycsv,
-- which write the database; internal/servicemaps derives from the trips which stops a route serves,
-- in an order that internal/graph finds; internal/public and internal/admin serve the result.
--
-- The files.
--   Base: notation, lists (Base.Lists), maps with their order of insertion (Base.Maps), and Go's
--     integers (Base.Int): an int64 is a ℤ, a conversion to int32 or uint32 wraps.
--   Graph: internal/graph. Graph.Types is types.go (`NewGraph` is `new_graph`, `EdgeSetsEqual` is
--     `edge_sets_equal`), Graph.Sort is `SortBasic` of sort.go. The nodes stand in a map from labels,
--     where Go has pointers; the counts of `numInNodes` are a function from labels.
--   ServiceMaps: internal/servicemaps/servicemaps.go. Types has the parts of a GTFS trip that are
--     read, and the record `GoLib` of what is called of Go's library: floats, `strings.ToLower` and
--     the text that `fmt` writes for a number. Days is `buildIncludedServiceIDs`, Included is
--     `isIncludedTrip`, Reverse is `reverse`, TripKey is `calculateTripKey` with the edges of a trip,
--     StaticMaps is `buildStaticMaps`, BuildMap is `buildMap`, RealtimeMaps is `getTripStopPks`,
--     `buildRealtimeMapEdges` and `persistMap`, Configs is `UpdateConfig`, and
--     Updates is `ListConfigsInSystem`, `UpdateStaticMaps` and `UpdateRealtimeMaps`.
--   Scheduler: internal/scheduler/scheduler.go. FeedRun is `feedScheduler.run`, as a relation of
--     steps: a tick, the end of an update, a request for the status and the end of the context.
--     Policy is `NormalizeSchedulingPolicy`, and Systems is `runWithClock` with the schedulers of
--     systems: what runs is a map from systems to maps from feeds to configurations. Ticker is
--     internal/scheduler/ticker/ticker.go, as steps of the goroutines of a ticker and of its feed.
--   Update: internal/update/update.go and internal/update/common/common.go. Config is
--     `NormalizeFeedConfig`, `GetFeedType` and `UseAccessibilityInfoFromFeed`, Run is `Update`, `run`
--     and `getFeedContent`. The record `Calls` is what these call: HTTP, JSON, the hash, the parsers
--     and updaters of feeds, and the queries on a database of any type; a transaction that fails
--     leaves the database as it was.
--   Static: internal/update/static/static.go. Rows has the rows and columns, Upsert is
--     `updateAgencies`, `updateRoutes` and `updateStops`, which share one loop, TransferId and
--     Transfers are `updateTransfers`, Services is `updateServices` and `updateShapes`,
--     and ScheduledTrips has the rows of `updateScheduledTrips`.
--   Realtime: internal/update/realtime/realtime.go. Sequences is `populateStopSequences`, Headsigns
--     is `StopHeadsignMatcher`, StopTimes is `calculateStopTimeChanges`, Trips is the loop of
--     `updateTrips`, UpdateTrips the rest of it, Alerts is `updateAlerts`, with `insertAlerts` in
--     Alerts.Inserts, and Vehicles is `updateVehicles`, with the query DeleteVehicles of
--     db/queries/vehicle_queries.sql.
--   Database: internal/db. Wrappers is the maps from IDs to primary keys of internal/db/dbwrappers.
--   NyctSubway: internal/update/nyctsubwaycsv/nyctsubwaycsv.go. CustomRules is `customRules`, Parse is
--     `Parse` on the records that the CSV reader gives, and Update is `Update`; Priorities is the order
--     of ListStopHeadsignRulesForStops in db/queries/stop_headsign_queries.sql.
--   Public: internal/public. Results is context.go and errors.go of endpoints and errors, Reference is
--     reference.go. Pages is the pagination of the handlers, with the query ListStops of
--     db/queries/stop_queries.sql over a list of rows and a client that follows the pages. Stops is
--     endpoints/stop.go: RawData is `getRawStopData`, with the maps of internal/db/dbwrappers that it
--     reads, Response and Build are `buildStopsResponse`, and Handlers is `ListStops` and `GetStop`.
--     Alerts is
--     endpoints/alert.go. The record `PublicLibrary` has what is taken from libraries, `StopQueries` the queries.
--   Client: ArgsFlag is the flag of internal/argsflag/argsflag.go.
--   Admin: internal/admin/admin.go. Systems is `upsertSystemEntry`, `markSystemInstallFinished` and
--     the transaction of `DeleteSystem`, Feeds is `upsertSystemMetadata` and `performInstall`, and
--     Tasks is `InstallOrUpdateSystem` and `DeleteSystem` with their goroutines, as a relation of
--     steps: a request, or a part of a goroutine.
-- In each, Types or the top of the file has the records for Go's structs, with the same field names;
-- theorems stand in child modules, and tests and examples in a module Tests.
--
-- Conventions. A pointer that may be nil is an option. Primary keys are natural numbers. A query
-- that fails gives no result where only the fact of the error is passed on, and its text where that
-- is read. Go ranges over a map in an order that is not fixed; the model takes the order of
-- insertion.
--
-- Bounds and fuel. Two loops are on fuel. That of `SortBasic` has the number of nodes, since each node
-- is pushed at most once; that of `reverse` has the length of the slice, since its indices meet after
-- at most half as many rounds. Stop sequences are int64 in the loop of
-- `populateStopSequences` and uint32 in its result.
--
-- Not modelled. Generated code (internal/gen), the HTTP and gRPC servers, the command line client,
-- the public endpoints but for stops and alerts, metrics, the parser of feeds, which is another
-- project, clocks, log lines but for a failed end of an install, and the remaining parts of the
-- packages above: `SortTree` and `Tree`, the sequence of the queries of `updateVehicles`, frequencies
-- of trips, the default service maps,
-- the first tick of a ticker, `ListTransfers` and `GetTransfer`, and `Ping`.
pub mod Base
pub mod Admin
pub mod Client
pub mod Database
pub mod Graph
pub mod NyctSubway
pub mod Public
pub mod Realtime
pub mod Scheduler
pub mod ServiceMaps
pub mod Static
pub mod Update
