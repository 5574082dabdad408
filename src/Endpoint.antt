-- ===== src/Endpoint.antt =====
-- src/model/route.rs: endpoints, their text and its parser.
pub mod Decimal
pub mod RoundTrip
mod Tests
use horaedb_client_rs.Prelude.{
  ℕ, zero, suc, ◌+◌, ◌-◌, ◌*◌, ◌^◌, ◌≡◌, Bool, true, false, ◌&&◌, Option, none, some, List, [], ◌∷◌,
  ◌++◌, Str, HashKey, ◌↔◌, arith, eqb, eqb_iff, leb, ltb, str_eqb, str_eqb_iff, is_empty,
  if◌then◌else◌,
}
use Decimal.{print}

pub record Endpoint : Type 0 where
  pub addr : Str
  pub port : ℕ

-- The derived equality.
abbrev pub endpoint_eqb : Endpoint → Endpoint → Bool
endpoint_eqb a b = str_eqb a.addr b.addr && eqb a.port b.port

pub endpoint_eqb_iff : (a b : Endpoint) → (endpoint_eqb a b ≡ true) ↔ (a ≡ b)
endpoint_eqb_iff a b = ground (arith, str_eqb_iff a.addr b.addr)

instance abbrev pub endpoint_eq : HashKey Endpoint
endpoint_eq = record { same = endpoint_eqb; same_iff = endpoint_eqb_iff }

-- `Display`: the address, a colon, the port in decimal.
unfoldable pub to_string : Endpoint → Str
to_string e = e.addr ++ b':' ∷ print e.port

-- The protobuf endpoint.
pub record EndpointPb : Type 0 where
  pub ip : Str
  pub port : ℕ

unfoldable pub of_pb : EndpointPb → Endpoint
of_pb e = record { addr = e.ip; port = e.port }

-- `rsplit_once(':')` of the standard library: split at the last colon.
abbrev pub rsplit_once : Str → Option (Str × Str)
rsplit_once [] = none
rsplit_once (c ∷ s) = elim (rsplit_once s) [
  | some (before, after) ↦ some (c ∷ before, after)
  | none ↦ if eqb c b':' then some ([], s) else none
]

-- `u32::from_str` of the standard library: an optional plus sign, then one or more digits, with a
-- check of each step.
pub data ParseIntError : Type 0 where
  empty invalid_digit pos_overflow : ParseIntError

pub data Parsed : Type 0 where
  number : ℕ → Parsed
  failed : ParseIntError → Parsed

abbrev pub is_digit : ℕ → Bool
is_digit c = leb b'0' c && leb c b'9'

pub parse_digits : ℕ → Str → Parsed
parse_digits n [] = number n
parse_digits n (c ∷ s) =
    let next = n * 10 + (c - b'0') in
    let rest = parse_digits next s in
    if is_digit c
    then (if ltb next (2 ^ 32) then rest else failed pos_overflow)
    else failed invalid_digit

pub parse_u32 : Str → Parsed
unfolding parse_digits
parse_u32 [] = failed empty
parse_u32 (c ∷ []) = if eqb c b'+' then failed invalid_digit else parse_digits 0 (c ∷ [])
parse_u32 (c ∷ d ∷ s) = if eqb c b'+' then parse_digits 0 (d ∷ s) else parse_digits 0 (c ∷ d ∷ s)

-- The four errors of `from_str`.
pub data EndpointError : Type 0 where
  no_colon empty_addr too_large_port : EndpointError
  bad_port : ParseIntError → EndpointError

pub data ParsedEndpoint : Type 0 where
  ok : Endpoint → ParsedEndpoint
  err : EndpointError → ParsedEndpoint

abbrev pub with_port : Str → Parsed → ParsedEndpoint
with_port addr (failed e) = err (bad_port e)
with_port addr (number port) =
    if ltb 65535 port then err too_large_port else ok (record { addr = addr; port = port })

unfoldable pub from_str : Str → ParsedEndpoint
unfolding parse_u32
from_str s = elim (rsplit_once s) [
  | none ↦ err no_colon
  | some (addr, raw_port) ↦
      if is_empty addr then err empty_addr else with_port addr (parse_u32 raw_port)
]
