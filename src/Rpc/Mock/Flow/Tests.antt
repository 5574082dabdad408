-- ===== src/Rpc/Mock/Flow/Tests.antt =====
-- The fixture of `test_basic_flow`.
use mathlib.Core.Bool.{false≢true}
use horaedb_client_rs.Prelude.{
  ◌≡◌, ◌≢◌, refl, sym, ◌∙◌, false, some, [], ◌∷◌, Str, str_eq, ◌==◌, str_eqb_iff, bytes,
}
use horaedb_client_rs.Endpoint.{Endpoint}
use horaedb_client_rs.HashMap.{in_order}
use horaedb_client_rs.Rpc.Mock.Flow.{basic_flow}
use horaedb_client_rs.Rpc.Mock.Flow.Asserts.{basic_flow-asserts}

differs : (t u : Str) → (t == u) ≡ false → t ≢ u
differs t u d e = false≢true (sym d ∙ (str_eqb_iff t u).1 e)

abbrev endpoint1 : Endpoint
endpoint1 = record { addr = bytes "192.168.0.1"; port = 11 }

abbrev endpoint2 : Endpoint
endpoint2 = record { addr = bytes "192.168.0.2"; port = 12 }

abbrev endpoint3 : Endpoint
endpoint3 = record { addr = bytes "192.168.0.3"; port = 13 }

abbrev endpoint4 : Endpoint
endpoint4 = record { addr = bytes "192.168.0.4"; port = 14 }

abbrev default_endpoint : Endpoint
default_endpoint = record { addr = bytes "192.168.0.5"; port = 15 }

basic_flow-asserts_example :
    basic_flow in_order
      (bytes "table1")
      (bytes "table2")
      (bytes "table3")
      (bytes "table4")
      endpoint1
      endpoint2
      endpoint3
      endpoint4
      default_endpoint
    ≡ some (
        (some endpoint1 ∷ some endpoint2 ∷ [])
        ∷ (some endpoint1 ∷ some endpoint2 ∷ [])
        ∷ (some endpoint3 ∷ some endpoint4 ∷ [])
        ∷ (some default_endpoint ∷ some default_endpoint ∷ [])
        ∷ [])
basic_flow-asserts_example =
    basic_flow-asserts in_order (bytes "table1") (bytes "table2") (bytes "table3") (bytes "table4")
      endpoint1 endpoint2 endpoint3 endpoint4 default_endpoint
      (differs (bytes "table1") (bytes "table2") refl)
      (differs (bytes "table1") (bytes "table3") refl)
      (differs (bytes "table2") (bytes "table3") refl)
      (differs (bytes "table1") (bytes "table4") refl)
      (differs (bytes "table2") (bytes "table4") refl)
