-- ===== src/BTreeMap.antt =====
-- `std::collections::BTreeMap` as the list of its entries in ascending order of keys, which is
-- the order in which the client iterates over one.
pub mod Laws
pub mod Same
use Prim.Native.Nat.Ordering.{lt, eq, gt}
use horaedb_client_rs.Prelude.{◌≡◌, Option, none, some, List, [], ◌∷◌, SortKey, All}

abbrev pub BTreeMap {ℓ κ} : Type ℓ → Type κ → Type (ℓ ⊔ κ)
BTreeMap K V = List (K × V)

module _ {ℓ κ} {K : Type ℓ} {V : Type κ} ⦃o : SortKey K⦄ where
  -- Replaces the value of a key that is there.
  unfoldable pub insert : K → V → BTreeMap K V → BTreeMap K V
  insert k v [] = (k, v) ∷ []
  insert k v ((j, w) ∷ m) = elim (o.order k j) [
    | lt ↦ (k, v) ∷ (j, w) ∷ m
    | eq ↦ (k, v) ∷ m
    | gt ↦ (j, w) ∷ insert k v m
  ]

  unfoldable pub get : BTreeMap K V → K → Option V
  get [] k = none
  get ((j, w) ∷ m) k = elim (o.order k j) [ lt ↦ get m k | eq ↦ some w | gt ↦ get m k ]

  -- `collect::<BTreeMap<_, _>>()`, into a map that is there already.
  unfoldable pub collect : List (K × V) → BTreeMap K V → BTreeMap K V
  collect [] m = m
  collect ((k, v) ∷ l) m = collect l (insert k v m)

  -- Keys ascend strictly.
  abbrev pub IsSorted : BTreeMap K V → Type ℓ
  IsSorted [] = Unit
  IsSorted ((k, v) ∷ m) = All (λ e. o.order k e.0 ≡ lt) m × IsSorted m
