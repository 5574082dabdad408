-- ===== src/Endpoint/RoundTrip.antt =====
-- The text of an endpoint, read back.
use native.Mathlib.Nat.{pow-suc}
use mathlib.Core.Bool.{false≢true}
use mathlib.Core.Path.{ap₂}
use mathlib.Core.List.{append_assoc, append-nil}
use horaedb_client_rs.Prelude.{
  ℕ, zero, suc, ◌+◌, ◌-◌, ◌*◌, ◌/◌, ◌%◌, ◌^◌, ◌<◌, ◌≤◌, ◌≡◌, ◌≢◌, refl, ap, sym, ◌∙◌, false, none,
  some, [], ◌∷◌, ◌++◌, arith, Str, All, ltb, is_empty, if◌then◌else◌, Bool-cases, Option-cases, inl,
  inr,
}
use horaedb_client_rs.Endpoint.{
  Endpoint, to_string, rsplit_once, parse_digits, parse_u32, number, failed, Parsed, with_port, err,
  empty_addr, from_str, ok,
}
use horaedb_client_rs.Endpoint.Decimal.{print_fuel, print}

abbrev IsDigit : ℕ → Type 0
IsDigit c = (b'0' ≤ c) × (c ≤ b'9')

All-append : (s t : Str) → All IsDigit s → All IsDigit t → All IsDigit (s ++ t)
All-append [] t a b = b
All-append (c ∷ s) t a b = (a.0, All-append s t a.1 b)

print_fuel-IsDigit : (fuel n : ℕ) → All IsDigit (print_fuel fuel n)
unfolding print_fuel
print_fuel-IsDigit zero n = tt
print_fuel-IsDigit (suc fuel) n = elim (Bool-cases (ltb n 10)) [
  | inl small ↦ rw small ((ground arith, ground arith), tt)
  | inr large ↦ rw large (
      All-append (print_fuel fuel (n / 10)) _ (print_fuel-IsDigit fuel (n / 10))
        ((omega arith, omega arith), tt))
]

-- One more digit.
parse_digit :
    (n d : ℕ) (rest : Str)
    → d < 10
    → n * 10 + d < 2 ^ 32
    → parse_digits n ((b'0' + d) ∷ rest) ≡ parse_digits (n * 10 + d) rest
unfolding parse_digits
parse_digit n d rest h k =
    let e : n * 10 + (b'0' + d - b'0') ≡ n * 10 + d = omega arith in rw e (ground arith)

parse_digits-print_fuel :
    (fuel n : ℕ) (rest : Str)
    → n < 10 ^ fuel
    → 0 < fuel
    → n < 2 ^ 32
    → parse_digits 0 (print_fuel fuel n ++ rest) ≡ parse_digits n rest
unfolding print_fuel
parse_digits-print_fuel zero n rest h z k = elim z [ ]
parse_digits-print_fuel (suc fuel) n rest h z k = elim (Bool-cases (ltb n 10)) [
  | inl small ↦ rw small (
      parse_digit 0 n rest (ground arith) (omega arith)
      ∙ ap (λ m. parse_digits m rest) (omega arith))
  | inr large ↦
      let p = pow-suc 10 fuel in
      let some_fuel : 0 < fuel = enough fuel (ground arith) in
      let last = (b'0' + n % 10) ∷ rest in
      rw large (
        ap (parse_digits 0) (append_assoc (print_fuel fuel (n / 10)) _ rest)
        ∙ parse_digits-print_fuel fuel (n / 10) last (omega arith) some_fuel (omega arith)
        ∙ parse_digit (n / 10) (n % 10) rest (omega arith) (omega arith)
        ∙ ap (λ m. parse_digits m rest) (omega arith))
]
  where
    enough : (f : ℕ) → (n < 10 ^ suc f) × (10 ≤ n) → 0 < f
    enough zero q = absurd (omega arith)
    enough (suc f) q = omega arith

-- A plus sign is no digit, so a text of digits is read digit by digit.
parse_u32-digits : (s : Str) → s ≢ [] → All IsDigit s → parse_u32 s ≡ parse_digits 0 s
unfolding parse_u32
parse_u32-digits [] h a = absurd (h refl)
parse_u32-digits (c ∷ []) h a = ground arith
parse_u32-digits (c ∷ d ∷ s) h a = ground arith

print-nonempty : (n : ℕ) → print n ≢ []
unfolding print print_fuel
print-nonempty n e = ground arith

-- Every `u32` is read back from its decimal text.
pub parse_u32-print : (n : ℕ) → n < 2 ^ 32 → parse_u32 (print n) ≡ number n
unfolding print
parse_u32-print n h =
    parse_u32-digits (print_fuel 10 n) (print-nonempty n) (print_fuel-IsDigit 10 n)
    ∙ ap (parse_digits 0) (sym (append-nil (print_fuel 10 n)))
    ∙ parse_digits-print_fuel 10 n [] (omega arith) (omega arith) h
    ∙ unfold parse_digits in refl

nonempty : (s : Str) → s ≢ [] → is_empty s ≡ false
nonempty [] h = absurd (h refl)
nonempty (c ∷ s) h = refl

rsplit_once-digits : (s : Str) → All IsDigit s → rsplit_once s ≡ none
rsplit_once-digits [] a = refl
rsplit_once-digits (c ∷ s) a = rw (rsplit_once-digits s a.1, rsplit_once) (ground arith)

rsplit_once-append :
    (addr s : Str) → All IsDigit s → rsplit_once (addr ++ b':' ∷ s) ≡ some (addr, s)
rsplit_once-append [] s a = rw (rsplit_once-digits s a, rsplit_once)
rsplit_once-append (c ∷ addr) s a = rw (rsplit_once-append addr s a, rsplit_once)

-- An endpoint with an address, in which colons may stand, and a port up to 65535 is read back from
-- its text.
pub from_str-to_string :
    (e : Endpoint) → e.addr ≢ [] → e.port ≤ 65535 → from_str (to_string e) ≡ ok e
unfolding from_str to_string print
from_str-to_string e h k =
    rw (rsplit_once-append e.addr (print e.port) (print_fuel-IsDigit 10 e.port), from_str)
      (rw (nonempty e.addr h) (rw (parse_u32-print e.port (omega arith), from_str) (ground arith)))

rsplit_once_lem :
    (s before after : Str) → rsplit_once s ≡ some (before, after) → s ≡ before ++ b':' ∷ after
rsplit_once_lem [] before after e = cc
rsplit_once_lem (c ∷ s) before after e = elim (Option-cases (rsplit_once s)) [
  | inl missing ↦ last (ground arith)
  | inr ((b, a), found) ↦ later b a (rsplit_once_lem s b a found) (ground arith)
]
  where
    last : (c ≡ b':') × ([] ≡ before) × (s ≡ after) → c ∷ s ≡ before ++ b':' ∷ after
    last p = cc (p.0, p.1, p.2)

    later :
        (b a : Str)
        → s ≡ b ++ b':' ∷ a
        → (c ∷ b ≡ before) × (a ≡ after)
        → c ∷ s ≡ before ++ b':' ∷ after
    later b a q p = ap (λ t. c ∷ t) q ∙ ap₂ (λ x y. x ++ b':' ∷ y) p.0 p.1

record IsAccepted (addr : Str) (p : Parsed) (e : Endpoint) : Type 0 where
  pub same_addr : e.addr ≡ addr
  pub given : is_empty addr ≡ false
  pub in_range : e.port ≤ 65535
  pub read : p ≡ number e.port

with_port-IsAccepted :
    (addr : Str) (p : Parsed) (e : Endpoint)
    → (if is_empty addr then err empty_addr else with_port addr p) ≡ ok e
    → IsAccepted addr p e
with_port-IsAccepted addr (failed x) e h = ground arith
with_port-IsAccepted addr (number n) e h = ground arith

-- What is accepted has an address, a port up to 65535, and is the address, a colon and a text that
-- reads as the port.
pub from_str-accepts :
    (s : Str) (e : Endpoint)
    → from_str s ≡ ok e
    → (e.addr ≢ [])
      × (e.port ≤ 65535)
      × ((raw : Str) × (s ≡ e.addr ++ b':' ∷ raw) × (parse_u32 raw ≡ number e.port))
unfolding from_str
from_str-accepts s e h = elim (Option-cases (rsplit_once s)) [
  | inl missing ↦ ground arith
  | inr ((addr, raw), found) ↦
      let a = with_port-IsAccepted addr (parse_u32 raw) e (rw (found, from_str) at h) in
      (
        λ none_given. false≢true (sym a.given ∙ ap is_empty (sym a.same_addr ∙ none_given)),
        a.in_range,
        (
          raw,
          rsplit_once_lem s addr raw found ∙ ap (λ t. t ++ b':' ∷ raw) (sym a.same_addr),
          a.read,
        ),
      )
]
