-- ===== src/Prelude/Order.antt =====
-- Keys of maps: `HashKey` for hashed ones, `SortKey` for sorted ones, and both for texts. A Rust `String`
-- and a `Vec<u8>` are lists of bytes here, and `String`'s order is the one of its bytes.
use Prim.Native.Nat.{ℕ, compare, Ordering}
use Prim.Native.Nat.Ordering.{lt, eq, gt}
use mathlib.Core.Path.{◌≡◌, refl}
use mathlib.Core.Logic.{◌↔◌}
use mathlib.Core.Bool.{Bool, true, false, ◌&&◌}
use mathlib.Core.List.{List, [], ◌∷◌}
use native.Mathlib.Omega.{arith}
use horaedb_client_rs.Prelude.Tests.{eqb}

-- `Hash + Eq`: what a hash map needs of its keys is the test.
pub record HashKey {ℓ} (K : Type ℓ) : Type ℓ where
  pub same : K → K → Bool
  pub same_iff : (j k : K) → (same j k ≡ true) ↔ (j ≡ k)

infix 50 ◌==◌
abbrev pub ◌==◌ {ℓ} : {K : Type ℓ} ⦃h : HashKey K⦄ → K → K → Bool
◌==◌ ⦃h⦄ j k = h.same j k

-- `Ord`, whose laws a `BTreeMap` relies on.
pub record SortKey {ℓ} (K : Type ℓ) : Type ℓ where
  pub order : K → K → Ordering
  pub order_trans : (i j k : K) → order i j ≡ lt → order j k ≡ lt → order i k ≡ lt
  pub order_self : (k : K) → order k k ≡ eq
  pub eq_of_order : (j k : K) → order j k ≡ eq → j ≡ k
  pub order_flip : (j k : K) → (order j k ≡ gt) ↔ (order k j ≡ lt)

abbrev pub Str : Type 0
Str = List ℕ

abbrev pub str_eqb : Str → Str → Bool
str_eqb [] [] = true
str_eqb [] (b ∷ t) = false
str_eqb (a ∷ s) [] = false
str_eqb (a ∷ s) (b ∷ t) = eqb a b && str_eqb s t

pub str_eqb_iff : (s t : Str) → (str_eqb s t ≡ true) ↔ (s ≡ t)
str_eqb_iff [] [] = ground arith
str_eqb_iff [] (b ∷ t) = ground arith
str_eqb_iff (a ∷ s) [] = ground arith
str_eqb_iff (a ∷ s) (b ∷ t) = ground (arith, str_eqb_iff s t)

instance abbrev pub str_eq : HashKey Str
str_eq = record { same = str_eqb; same_iff = str_eqb_iff }

-- The lexicographic order of the bytes.
abbrev pub compare_str : Str → Str → Ordering
compare_str [] [] = eq
compare_str [] (b ∷ t) = lt
compare_str (a ∷ s) [] = gt
compare_str (a ∷ s) (b ∷ t) = elim (compare a b) [ lt ↦ lt | eq ↦ compare_str s t | gt ↦ gt ]

pub compare_str_refl : (s : Str) → compare_str s s ≡ eq
compare_str_refl [] = refl
compare_str_refl (a ∷ s) = ground (arith, compare_str_refl s)

pub eq_of_compare_str : (s t : Str) → compare_str s t ≡ eq → s ≡ t
eq_of_compare_str [] [] = ground arith
eq_of_compare_str [] (b ∷ t) = ground arith
eq_of_compare_str (a ∷ s) [] = ground arith
eq_of_compare_str (a ∷ s) (b ∷ t) = ground (arith, eq_of_compare_str s t)

pub compare_str_flip : (s t : Str) → (compare_str s t ≡ gt) ↔ (compare_str t s ≡ lt)
compare_str_flip [] [] = ground arith
compare_str_flip [] (b ∷ t) = ground arith
compare_str_flip (a ∷ s) [] = ground arith
compare_str_flip (a ∷ s) (b ∷ t) = ground (arith, compare_str_flip s t)

pub compare_str_trans :
    (s t u : Str) → compare_str s t ≡ lt → compare_str t u ≡ lt → compare_str s u ≡ lt
compare_str_trans [] [] u = ground arith
compare_str_trans [] (b ∷ t) [] = ground arith
compare_str_trans [] (b ∷ t) (c ∷ u) = ground arith
compare_str_trans (a ∷ s) [] u = ground arith
compare_str_trans (a ∷ s) (b ∷ t) [] = ground arith
compare_str_trans (a ∷ s) (b ∷ t) (c ∷ u) = ground (arith, compare_str_trans s t u)

instance abbrev pub str_ord : SortKey Str
str_ord = record {
  order = compare_str;
  order_trans = compare_str_trans;
  order_self = compare_str_refl;
  eq_of_order = eq_of_compare_str;
  order_flip = compare_str_flip;
}
