-- ===== src/Endpoint/Decimal.antt =====
-- Decimal numerals, as `Display` writes an unsigned integer.
use horaedb_client_rs.Prelude.{
  ℕ, zero, suc, ◌+◌, ◌/◌, ◌%◌, ◌≡◌, refl, [], ◌∷◌, ◌++◌, Str, ltb, if◌then◌else◌,
}

-- The digits of a number, most significant first, with fuel: a number below 10 has one digit.
unfoldable pub print_fuel : ℕ → ℕ → Str
print_fuel zero n = []
print_fuel (suc fuel) n =
    let higher = print_fuel fuel (n / 10) in
    if ltb n 10 then (b'0' + n) ∷ [] else higher ++ (b'0' + n % 10) ∷ []

-- A `u32` has at most ten digits.
unfoldable pub print : ℕ → Str
print n = print_fuel 10 n

test_print : print 65535 ≡ b'6' ∷ b'5' ∷ b'5' ∷ b'3' ∷ b'5' ∷ []
unfolding print print_fuel
test_print = refl
