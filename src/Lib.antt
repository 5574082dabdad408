-- ===== src/Lib.antt =====
-- Verification of the HoraeDB Rust client.
--
-- The program turns points into write requests, sends them and SQL queries to the servers of a
-- cluster, and turns the answers into rows and errors. Its parts, and the files that model them:
--
-- - src/model/value.rs: Value (values, types, ranges), Value/Cast (`as_i8` to `as_u64`), Value/Float
--   (`as_f32` and `as_f64`, with Float/Bits, Round and Nearest on rounding, Float/Cast on integers and
--   Float/Widen on the cast from f32 to f64), Value/Bytes (`to_bytes`), Value/Proto (the conversions
--   from and to protobuf).
-- - src/model/write/point.rs: Write/Point (`Point`, `PointBuilder`, whose methods are `set_table`,
--   `set_timestamp`, `tag`, `field` and `build` here). Point/Clean is about the
--   columns of a built point.
-- - src/model/write/request.rs: Write/Request (`Request`, points grouped by table), Write/Key
--   (`make_tags_key`), Write/Series (`TableRequestPbBuilder::new`, points grouped by series),
--   Write/NameDict (`NameDict`), Write/Proto (the builders of the protobuf requests) and
--   Write/Proto/Recover (what the unit test of that file reads back). Series/Invariant and Series/Arranged
--   say what grouping keeps, Write/Survive what overwriting leaves, Write/Refine and Write/Delivered
--   follow the points through grouping, Write/Groups through the groups of a request,
--   Write/Once is about points that come twice, and Write/Whole goes on to the messages. Write/Compare has the
--   reference of the unit test `test_build_write_table`, against which it compares recovered points, and
--   Compare/Fixture the points of that test. SqlQuery/Row/Fixture has `test_build_row`.
-- - src/errors.rs and src/model/write/response.rs: Errors (`Error`, `RouteBasedWriteError`,
--   `Response`), Errors/Merge (the merge of the results of a split write).
-- - src/util.rs: Util. src/config.rs: Config. src/model/route.rs: Endpoint.
-- - src/router.rs: Router (`RouterImpl`, with its cache; `route` as the loops `find_cached` and
--   `fill`; `evict`). Router/Tasks has both as tasks that share
--   the cache, step by step.
-- - src/rpc_client/mod.rs: Rpc (contexts and messages). src/rpc_client/rpc_client_impl.rs:
--   Rpc/Client (the client of a server, its factory, and the traits of both as records).
--   src/rpc_client/mock_rpc_client.rs: Rpc/Mock (the client of the unit tests), Rpc/Mock/Flow (the
--   unit test of the router, for any tables and endpoints).
-- - src/model/sql_query: SqlQuery/Messages (requests and protobuf messages), SqlQuery/Arrow (what is
--   called of arrow and zstd), SqlQuery/Row (`RowBuilder`, `fill_column!`), SqlQuery/Response
--   (`decode_arrow_payload` and the `TryFrom` impls), SqlQuery/Display (the csv text).
-- - src/db_client: DbClient (`resolve_database`), DbClient/Inner (`InnerClient`), DbClient/Raw
--   (`RawImpl`), DbClient/RouteBased (`RouteBasedImpl`, its router cell and its pool), with
--   RouteBased/Query (`sql_query`), RouteBased/Partition (the split of a write), RouteBased/Write
--   (`write`), and DbClient/Builder (`Builder`). DbClient/Same compares the two modes where one server
--   has all tables.
--
-- A write goes from DbClient/RouteBased/Write through Router to the parts of Partition; each part
-- goes through Inner to the requests of Write/Proto, and the results come back through Errors/Merge.
-- A query goes from RouteBased/Query through Router and Inner to SqlQuery/Response.
--
-- Conventions. A panic is `none` of an Option; an error of the client is `err` of Result, whose
-- parameter is the type of the errors of other crates. State is passed on: an operation takes the
-- state before it and returns its result with the state after. A text and a byte vector are lists
-- of bytes, a signed integer is in ℤ and an unsigned one in ℕ with its range as a predicate, a
-- float is its bit pattern, a duration is a number of milliseconds. `u32` totals wrap, as in a
-- release build. BTreeMap holds its entries sorted. HashMap and DashMap are lists of entries, and
-- code that reads all entries of one takes an `Arrangement`, an arbitrary order: every theorem
-- holds for every order. A recursion is on the data that the loop runs over; only the printing of a
-- decimal number (Endpoint/Decimal) has fuel, ten digits, which a `u32` does not exceed, as the
-- round trip of endpoints shows.
--
-- Concurrency. Router/Tasks has a step for each access of the shared cache, and any number of calls of
-- `route` and `evict` interleave in any order, with a server that answers as it likes. The executable
-- `route` takes as an argument what other tasks do to the cache while it waits for the server, and
-- Tasks/Alone and Tasks/Unique relate the two. The parts of a write go to different clients of the pool, so their
-- writes are in one order here. A cell that is set once (OnceCell) is an Option.
--
-- Floats. Rust's casts are IEEE 754: from an integer to the nearest float, of two as near to the even
-- one. What Rust leaves open, the bits of a NaN that is cast, is a quiet NaN with the same upper bits.
--
-- Parameters. What tonic (transport, metadata), base64, arrow and zstd do is an argument: `Channel`
-- and `Tonic` of Rpc/Client, and `Arrow` of SqlQuery/Arrow. `BatchHolds` of SqlQuery/Row/Laws says
-- what the client relies on of a record batch, with SqlQuery/Row/Types for how arrow's data types are to
-- be read. The protobuf messages of horaedbproto have the fields
-- that the client sets and reads. The router's and the pool's references to the factory and to the
-- rpc client are arguments of the operations that call them.
--
-- Not modelled: the Display of errors (texts that are only printed), how often and when the transport
-- carries a message (a call is what it answers), the example program (I/O against a
-- running server), and the module declarations.
mod Prelude
pub mod BTreeMap
pub mod HashMap
pub mod Value
pub mod Write
pub mod Errors
pub mod Util
pub mod Endpoint
pub mod Rpc
pub mod Config
pub mod DbClient
pub mod Router
pub mod SqlQuery
