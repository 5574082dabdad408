-- ===== src/DbClient/RouteBased/Partition.antt =====
-- How `write` of src/db_client/route_based.rs splits a request by the servers of its tables.
pub mod Laws
pub mod Routed
pub mod Clean
pub mod Part
pub mod Delivered
use mathlib.Core.Option.{get_or}
use horaedb_client_rs.Prelude.{◌>>=◌, Option, none, some, List, [], ◌∷◌, ◌++◌, Str, str_eq}
use horaedb_client_rs.Endpoint.{Endpoint, endpoint_eq}
use horaedb_client_rs.HashMap
use horaedb_client_rs.HashMap.{HashMap}
use horaedb_client_rs.Write.Point.{Point}
use horaedb_client_rs.Write.Request.{Request, default}

abbrev pub Groups : Type 0
Groups = HashMap Str (List Point)

abbrev pub Parts : Type 0
Parts = HashMap Endpoint Request

-- `entry(ep).or_insert_with(WriteRequest::default)`, then the insertion of the table's group.
unfoldable pub assign : Parts → Endpoint → Str → List Point → Parts
assign parts ep table points =
    let write_req = get_or (HashMap.get parts ep) default in
    HashMap.insert ep (record { point_groups = HashMap.insert table points write_req.point_groups })
      parts

-- The loop over the endpoints zipped with the tables: the parts, and the tables without an endpoint.
-- `none` is the panic on a table that is not in the request.
unfoldable pub partition :
    Groups → List (Option Endpoint) → List Str → Parts → List Str → Option (Parts × List Str)
partition groups [] tables parts missing = some (parts, missing)
partition groups (ep ∷ eps) [] parts missing = some (parts, missing)
partition groups (none ∷ eps) (table ∷ tables) parts missing =
    partition groups eps tables parts (missing ++ table ∷ [])
partition groups (some ep ∷ eps) (table ∷ tables) parts missing = do
  points ← HashMap.get groups table
  partition groups eps tables (assign parts ep table points) missing
