-- ===== src/Prelude/Int.antt =====
-- Signed integers over the native numbers (the library's ℤ stands on the unary ℕ), and the `as`
-- casts of Rust between widths. A width is given by its modulus, `2 ^ 8` and so on.
use Prim.Native.Nat.{ℕ, suc, ◌+◌, ◌-◌, ◌*◌, ◌%◌, ◌≤◌, ◌<◌, compare, Ordering}
use mathlib.Core.Path.{◌≡◌}
use mathlib.Core.Bool.{Bool, true, false}
use mathlib.Core.Logic.{◌↔◌}
use native.Mathlib.Omega.{arith}
use horaedb_client_rs.Prelude.Tests.{ltb, if◌then◌else◌}
use horaedb_client_rs.Prelude.Order.{HashKey, SortKey}

-- `negsuc n` is -(n + 1).
pub data ℤ : Type 0 where
  pos : ℕ → ℤ
  negsuc : ℕ → ℤ

abbrev pub pos_part : ℤ → ℕ
pos_part (pos n) = n
pos_part (negsuc n) = 0

abbrev pub neg_part : ℤ → ℕ
neg_part (pos n) = 0
neg_part (negsuc n) = suc n

-- The bit pattern of an integer in the width with modulus `m`: what `as u8` and the like keep.
abbrev pub to_unsigned : ℕ → ℤ → ℕ
to_unsigned m (pos n) = n % m
to_unsigned m (negsuc n) = m - 1 - n % m

-- The signed reading of a bit pattern below `m`.
abbrev pub of_bits : ℕ → ℕ → ℤ
of_bits m u = if ltb (u * 2) m then pos u else negsuc (m - 1 - u)

-- `as i8` and the like.
abbrev pub to_signed : ℕ → ℤ → ℤ
to_signed m z = of_bits m (to_unsigned m z)

-- The range of a signed type: both parts fit in half the modulus.
abbrev pub InSigned : ℕ → ℤ → Type 0
InSigned m z = (pos_part z * 2 < m) × (neg_part z * 2 ≤ m)

abbrev pub compare_ℤ : ℤ → ℤ → Ordering
compare_ℤ a b = compare (pos_part a + neg_part b) (pos_part b + neg_part a)

pub compare_ℤ_trans :
    (a b c : ℤ)
    → compare_ℤ a b ≡ Ordering.lt
    → compare_ℤ b c ≡ Ordering.lt
    → compare_ℤ a c ≡ Ordering.lt
compare_ℤ_trans a b c = ground arith

pub compare_ℤ_self : (a : ℤ) → compare_ℤ a a ≡ Ordering.eq
compare_ℤ_self a = ground arith

pub eq_of_compare_ℤ : (a b : ℤ) → compare_ℤ a b ≡ Ordering.eq → a ≡ b
eq_of_compare_ℤ a b = ground arith

pub compare_ℤ_flip : (a b : ℤ) → (compare_ℤ a b ≡ Ordering.gt) ↔ (compare_ℤ b a ≡ Ordering.lt)
compare_ℤ_flip a b = ground arith

-- Timestamps are keys of a `BTreeMap`.
instance abbrev pub int_ord : SortKey ℤ
int_ord = record {
  order = compare_ℤ;
  order_trans = compare_ℤ_trans;
  order_self = compare_ℤ_self;
  eq_of_order = eq_of_compare_ℤ;
  order_flip = compare_ℤ_flip;
}

abbrev pub int_eqb : ℤ → ℤ → Bool
int_eqb a b = elim (compare_ℤ a b) [ Ordering.eq ↦ true | _ ↦ false ]

pub int_eqb_iff : (a b : ℤ) → (int_eqb a b ≡ true) ↔ (a ≡ b)
int_eqb_iff a b = ground arith

instance abbrev pub int_eq : HashKey ℤ
int_eq = record { same = int_eqb; same_iff = int_eqb_iff }
