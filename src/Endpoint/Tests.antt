-- ===== src/Endpoint/Tests.antt =====
-- The theorems about endpoints at one endpoint.
use horaedb_client_rs.Prelude.{◌≡◌, ◌≢◌, refl, ◌≤◌, ◌++◌, [], ◌∷◌, Str, bytes, arith, is_empty, ap}
use mathlib.Core.Bool.{false≢true}
use horaedb_client_rs.Endpoint.{
  Endpoint, ParsedEndpoint, Parsed, from_str, to_string, parse_u32, parse_digits,
}
use horaedb_client_rs.Endpoint.RoundTrip.{from_str-to_string, from_str-accepts}

abbrev sample : Endpoint
sample = record { addr = bytes "10.0.0.1"; port = 8831 }

addr_given : sample.addr ≢ []
addr_given e = false≢true (ap is_empty e)

from_str-to_string_example : from_str (to_string sample) ≡ ParsedEndpoint.ok sample
from_str-to_string_example = from_str-to_string sample addr_given (omega arith)

accepted : from_str (bytes "10.0.0.1:8831") ≡ ParsedEndpoint.ok sample
unfolding from_str parse_u32 parse_digits
accepted = refl

from_str-accepts_example :
    (sample.addr ≢ [])
    × (sample.port ≤ 65535)
    × ((raw : Str) × (bytes "10.0.0.1:8831" ≡ sample.addr ++ b':' ∷ raw)
        × (parse_u32 raw ≡ Parsed.number sample.port))
from_str-accepts_example = from_str-accepts (bytes "10.0.0.1:8831") sample accepted
