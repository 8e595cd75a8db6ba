-- ===== src/Lib.antt =====
-- Verification of the Pi-Bench telemetry service (github.com/araki/pibench).
--
-- Devices send points (a timestamp, a position, an acceleration, sometimes a battery level) over
-- HTTP. A point is scanned from JSON and validated (internal/model), encoded as a 65-byte member
-- whose byte order is the order of time and arrival, and kept per device in a capped ordered
-- sequence (internal/store). Range queries return pages with opaque cursors (internal/cursor,
-- internal/store/paginate.go). The HTTP layer (internal/httpapi) calls a store through an
-- interface, which the in-memory store and the Redis store implement; the Redis store keeps a pool
-- of connections on which it speaks RESP (internal/resp). The newest points of a device have an
-- anomaly score (internal/anomaly). Responses are counted by status, and a page shows the counters
-- (internal/metrics). An instance is set up in cmd/api; stress/ has a load generator for it, whose
-- pacer offers requests at a constant rate to workers that time them.
--
-- Files
-- - Prelude, Prelude/*: shared names, Boolean tests, the result type, lists, the integers over
--   the native numbers.
-- - Golang/*: what the program uses of the Go library: strconv (decimal printing and parsing,
--   ParseFloat), encoding/binary, bytes.Compare, base64, sort.Search, sort.Strings and
--   sort.Slice (as an insertion sort, which agrees on elements that are only equal to
--   themselves), and the order and arithmetic of float64.
-- - Anomaly: internal/anomaly/anomaly.go: Compute; Anomaly/Laws proves.
-- - Cursor: internal/cursor/cursor.go: Encode and Decode; Cursor/Laws proves.
-- - Model/Point: internal/model/point.go: Point, pointJSON, toPoint, finite.
-- - Model/Codec, Model/Order: internal/model/point.go: Encode, EncodeInto, Decode, and the order
--   of members.
-- - Model/Scan, Model/Scan/Object: internal/model/fastjson.go: the scanner, and ParsePoint;
--   Model/Scan/Literal, Stop, Numeral, Spelled, Fuel, Shrink, Consumed, Members and Typed prove.
-- - Store: internal/store/store.go: the errors a store returns.
-- - Store/Page: internal/store/paginate.go: BuildPage; Store/Page/Resume says what a cursor
--   resumes.
-- - Store/Mem: internal/store/mem.go: Append, Range, Recent; Store/Mem/* prove.
-- - Resp, Resp/Reader: internal/resp/resp.go: EncodeCommand, ReadReply and what it calls.
-- - Resp/Fixed: internal/resp/resp.go: ReadFixedBulkArray and parseIntLine.
-- - Store/Redis, Store/Redis/Ops: internal/store/redis.go: the client, its pool and requests;
--   the operations and the warm-up. Store/Redis/Server says what the server documents of the
--   commands; Range, Recent, Append, Pool and Warm prove.
-- - Http/Validate: internal/httpapi/validate.go (validID) and the parameters of query.go.
-- - Http/Writer: internal/httpapi/handler.go (statusWriter) and responses.go.
-- - Http/Json: internal/httpapi/fastresp.go: appendRangeJSON and what it calls;
--   Http/Json/RoundTrip proves.
-- - Http/Handler: internal/httpapi/handler.go (New, readStatus, countStatus, ServeHTTP),
--   config.go, health.go, and the interface Store of internal/store/store.go; Http/Handler/Cells
--   and Serve prove.
-- - Http/Query: internal/httpapi/query.go: query; Http/Query/Mem runs it on the in-memory store,
--   Http/Query/Redis on the Redis store.
-- - Http/Ingest: internal/httpapi/telemetry.go: ingestSingle, ingestBatch, readBody;
--   Http/Ingest/Single, Batch and Mem prove.
-- - Http/Instance: internal/httpapi/handler.go: what the routes lead to, and an instance over
--   the in-memory store that serves requests in any order.
-- - Metrics: internal/metrics/metrics.go: the registry, counters, counters by label, Render;
--   Metrics/Order, Series and Commute prove.
-- - Metrics/Sample, Metrics/Runtime: internal/metrics/runtime.go: the samples by name;
--   RuntimeCollector, histStats.
-- - Http/Anomaly: internal/httpapi/anomaly.go: anomaly; Http/Anomaly/Reply, Overflow, Mem and
--   Redis prove.
-- - Config: internal/config/config.go: Load, str, intVal; Config/Laws proves.
-- - Load/Stats: stress/load/stats.go and format.go: Record, Op, Report; Load/Stats/Rank and
--   Merge prove.
-- - Load/Mix: stress/load/mix.go: NewMix, DefaultMix, Pick; Load/Mix/Bands proves.
-- - Load/Payload: stress/load/payload.go: RandomPoint, RandomBatch; Load/Payload/Accepted
--   proves.
-- - Load/Driver: stress/load/driver.go: withDefaults, request, fire, seed; Load/Driver/Pacer has
--   pace and the workers of Run as steps, and Load/Driver/Pacer/Counted proves.
-- - Load/Cli: stress/load/cli.go: the shared options.
-- - Capacity: stress/cmd/capacity/main.go: the sweep and the knee, and the schedules of the
--   other commands; Capacity/Knee proves.
-- - Api: cmd/api/main.go: what main sets up, warmPool; Api/WarmUp proves.
-- - Tests/*: runs on concrete inputs.
--
-- Conventions
-- A byte string is a list of numbers; an int64 is an integer with its range as a hypothesis, and a
-- wrap is written out (% 2 ^ 64, to_int64). A float64 is its bit pattern. An error is `err`, a
-- panic of the Go runtime is `panic`. A reader of a stream is a function of the bytes that are
-- still to come. The state of a store is passed explicitly, one step for each method, since each
-- method holds its lock from its first access to its last.
--
-- Bounds
-- ReadReply recurses on fuel of one more than the bytes of the input, which is enough as each
-- level of an array reads bytes. The loops of the JSON scanner have fuel of the bytes that are
-- still to come, of which each turn reads one or more. `max_alloc` stands for the largest
-- allocation of the Go runtime, 2^48 bytes, above which `make` panics: in ReadReply,
-- ReadFixedBulkArray and, with the 64 bytes of a point, in Range of the in-memory store.
--
-- Parameters
-- strconv.AppendFloat and FormatFloat (shortest digits), json.Unmarshal into a batch, and what
-- runtime/metrics reads are arguments of the definitions that use them. Nothing is assumed of
-- them, but where printed JSON is read back: there a theorem supposes of the floats at hand that
-- they are printed as number literals that read back as the value, which strconv documents. The
-- network under the Redis store is a record of functions (Store/Redis, `Network`): dialling, an
-- exchange of bytes, closing, and the error of the context. Where a theorem needs the server, it
-- supposes that the server runs the commands that were sent (Store/Redis/Server, `Runs`), which
-- follows the Redis documentation of ZADD, ZREMRANGEBYRANK, ZRANGEBYSCORE and ZREVRANGE on sorted
-- sets with exact scores; Redis keeps scores as float64, exact to 2^53.
--
-- Arithmetic on float64 is IEEE 754 on bit patterns with every operation rounded (Golang/Arith);
-- Go may fuse a product and a sum on some machines, which is not modelled.
--
-- The load generator takes random numbers (Load/Payload, `Rand`), the clock, the HTTP client
-- (Load/Driver, `Client`) and the printing of floats with a fixed number of digits as arguments.
-- The runs of a sweep are an argument of the sweep.
--
-- Not modelled: in cmd/api the sockets, signals and shutdown; in stress/ the timers, flags, the
-- alignment of columns by text/tabwriter, and the settings of the default HTTP client; and how the
-- ServeMux of net/http matches the routes of internal/httpapi.
pub mod Prelude
pub mod Golang
pub mod Cursor
pub mod Model
pub mod Store
pub mod Resp
pub mod Anomaly
pub mod Config
pub mod Http
pub mod Load
pub mod Metrics
pub mod Api
pub mod Capacity
pub mod Tests
