-- ===== src/DbClient/Tests.antt =====
-- The theorems about the client at a request of two tables.
use horaedb_client_rs.Prelude.{
  true, ◌≡◌, refl, Option, none, some, List, [], ◌∷◌, Str, str_eq, bytes, pos, if◌then◌else◌,
  is_some, ap,
}
use mathlib.Core.Bool.{false≢true}
use horaedb_client_rs.DbClient.Inner.{InnerClient}
use mathlib.Core.Option.{get_or}
use horaedb_client_rs.DbClient.RouteBased.{DirectClientPool, get_or_create}
use horaedb_client_rs.DbClient.RouteBased.Partition.{Groups, Parts, partition}
use horaedb_client_rs.DbClient.RouteBased.Partition.Laws.{group_in, assigned, partition-conserves}
use horaedb_client_rs.DbClient.RouteBased.Partition.Routed.{partition-routed}
use horaedb_client_rs.DbClient.RouteBased.Pool.{
  IsNamed, EndsNamed, insert-IsNamed, get_or_create_lem, send_parts-IsNamed,
}
use horaedb_client_rs.DbClient.RouteBased.Write.{
  WriteOrders, Results, evicts, merged, prepare, send_all,
}
use horaedb_client_rs.DbClient.RouteBased.Write.Laws.{get-evict-evicts, merged-merge}
use horaedb_client_rs.Endpoint.{Endpoint, endpoint_eq, to_string}
use horaedb_client_rs.Errors.{Error, Result, write_error, also, no_errors}
use horaedb_client_rs.Errors.Merge.{merge}
use horaedb_client_rs.BTreeMap
use horaedb_client_rs.DbClient.RouteBased.Sent.{Buildable, send_parts_total}
use horaedb_client_rs.Value.Bytes.{to_bytes}
use horaedb_client_rs.Value.Proto.{to_pb}
use horaedb_client_rs.Write.Key.{make_tags_key}
use horaedb_client_rs.Write.NameDict
use horaedb_client_rs.Write.NameDict.{convert_ordered, place}
use horaedb_client_rs.Write.Proto.{
  build_requests, build_tables, build, build_entries, build_series_entry, build_tags,
  build_ts_fields,
}
use horaedb_client_rs.Write.Series
use horaedb_client_rs.Write.Series.{group_points, add_to_series}
use horaedb_client_rs.HashMap
use horaedb_client_rs.HashMap.{in_order}
use horaedb_client_rs.Router.{RouterImpl, evict}
use horaedb_client_rs.Rpc.{RpcContext}
use horaedb_client_rs.Rpc.Client.{RpcClientFactory}
use horaedb_client_rs.Util.{should_refresh, as_u32}
use horaedb_client_rs.Value.{Value}
use horaedb_client_rs.Write.Point.{Point}
use horaedb_client_rs.Write.Request.{Request}

abbrev server : Str → Endpoint
server name = record { addr = name; port = 8831 }

abbrev sample_router : RouterImpl
sample_router = record {
  default_endpoint = server (bytes "d");
  cache = (bytes "a", server (bytes "1")) ∷ [];
}

abbrev point : Str → Point
point table = record {
  table = table;
  timestamp = pos 1;
  tags = [];
  fields = (bytes "cpu", Value.int32 (pos 1)) ∷ [];
}

abbrev sample_groups : Groups
sample_groups = (bytes "a", point (bytes "a") ∷ []) ∷ (bytes "b", point (bytes "b") ∷ []) ∷ []

abbrev orders : WriteOrders
orders = record {
  requests = record { tables = in_order; series = in_order; names = in_order };
  misses = in_order;
  parts = in_order;
}

abbrev two_endpoints : List (Option Endpoint)
two_endpoints = some (server (bytes "1")) ∷ some (server (bytes "d")) ∷ []

abbrev two_tables : List Str
two_tables = bytes "a" ∷ bytes "b" ∷ []

partition-routed_example :
    (parts : Parts) × ((partition sample_groups two_endpoints two_tables [] [] ≡ some (parts, []))
      × ((e : Endpoint) (t : Str)
          → group_in parts e t ≡ (
              if assigned two_endpoints two_tables e t then HashMap.get sample_groups t else none)))
unfolding HashMap.get
partition-routed_example = partition-routed orders sample_groups sample_router []

partition-conserves_at_sample :
    (parts : Parts) × ((partition sample_groups
          (some (server (bytes "1")) ∷ none ∷ [])
          two_tables
          []
          []
        ≡ some (parts, bytes "b" ∷ []))
      × ((e : Endpoint) (t : Str)
          → group_in parts e t ≡ (
              if assigned (some (server (bytes "1")) ∷ none ∷ []) two_tables e t
              then HashMap.get sample_groups t
              else none)))
unfolding HashMap.get
partition-conserves_at_sample =
    partition-conserves sample_groups (some (server (bytes "1")) ∷ none ∷ []) two_tables refl

abbrev sample_results : Results Unit
sample_results =
    (
      bytes "a" ∷ [],
      Result.err (Error.server (record { code = 400; msg = bytes "Table a not found" })),
    )
    ∷ (bytes "b" ∷ [], Result.ok (record { success = 2; failed = 1 }))
    ∷ []

get-evict-evicts_example :
    HashMap.get (evict sample_router (evicts sample_results)).cache (bytes "a") ≡ none
unfolding should_refresh as_u32
get-evict-evicts_example = get-evict-evicts Unit sample_router sample_results (bytes "a")

merged-merge_example :
    merged (merge sample_results)
    ≡ Result.err (
        Error.route_based (
          write_error
            (bytes "b" ∷ [])
            (record { success = 2; failed = 1 })
            (also
              (bytes "a" ∷ [])
              (Error.server (record { code = 400; msg = bytes "Table a not found" }))
              no_errors)))
merged-merge_example = merged-merge Unit sample_results

empty-IsNamed : IsNamed {X = Unit} []
unfolding HashMap.get
empty-IsNamed ep client e = absurd (false≢true (ap is_some e))

abbrev sample_client : InnerClient Unit
sample_client = record { endpoint = to_string (server (bytes "1")); inner_client = none }

abbrev sample_pool : DirectClientPool Unit
sample_pool = HashMap.insert (server (bytes "1")) sample_client []

sample_pool-IsNamed : IsNamed sample_pool
sample_pool-IsNamed = insert-IsNamed Unit [] (server (bytes "1")) sample_client refl empty-IsNamed

-- A client for another endpoint leaves the one that is there.
get_or_create_lem_example :
    (((get_or_create sample_pool (server (bytes "2"))).0.endpoint ≡ to_string (server (bytes "2")))
      × IsNamed (get_or_create sample_pool (server (bytes "2"))).1)
    × ((get_or
            (HashMap.get sample_pool (server (bytes "2")))
            (get_or_create sample_pool (server (bytes "2"))).0
          ≡ (get_or_create sample_pool (server (bytes "2"))).0)
        × (HashMap.get (get_or_create sample_pool (server (bytes "2"))).1 (server (bytes "1"))
            ≡ HashMap.get sample_pool (server (bytes "1"))))
get_or_create_lem_example =
    get_or_create_lem Unit sample_pool (server (bytes "2")) (server (bytes "1")) sample_pool-IsNamed

-- No server can be reached.
abbrev sample_factory : RpcClientFactory Unit
sample_factory = record { build = λ endpoint. Result.err (Error.connect endpoint tt) }

abbrev sample_context : RpcContext
sample_context = record { database = some (bytes "db"); timeout = none }

abbrev sample_parts : List (Endpoint × Request)
sample_parts = (server (bytes "2"), record { point_groups = sample_groups }) ∷ []

send_parts-IsNamed_example : EndsNamed Unit (
    send_all orders sample_factory sample_context
      (prepare orders sample_pool sample_parts).1
      (prepare orders sample_pool sample_parts).0)
send_parts-IsNamed_example =
    send_parts-IsNamed Unit orders sample_factory sample_context sample_pool sample_parts
      sample_pool-IsNamed

sample_parts-Buildable : Buildable Unit orders.requests sample_parts
unfolding build_requests build_tables Series.new group_points add_to_series make_tags_key to_bytes
    HashMap.get HashMap.insert BTreeMap.insert build build_entries build_series_entry build_tags
    build_ts_fields NameDict.insert NameDict.new convert_ordered place to_pb
sample_parts-Buildable = (refl, tt)

send_parts_total_at_sample :
    is_some (
      send_all orders sample_factory sample_context
        (prepare orders sample_pool sample_parts).1
        (prepare orders sample_pool sample_parts).0)
    ≡ true
send_parts_total_at_sample =
    send_parts_total Unit orders sample_factory sample_context (bytes "db") sample_pool sample_parts
      refl sample_parts-Buildable
