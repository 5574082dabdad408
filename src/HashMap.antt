-- ===== src/HashMap.antt =====
-- `std::collections::HashMap` and `dashmap::DashMap` as lists of entries, new keys at the end. The
-- order in which a hash map is iterated over is not specified: code that iterates takes an
-- `Arrangement`, which reads the entries in any order, each once.
pub mod Laws
pub mod Entries
use mathlib.Core.List.Perm
use horaedb_client_rs.Prelude.{
  ◌≡◌, Option, none, some, List, [], ◌∷◌, HashKey, ◌==◌, if◌then◌else◌, Mem, Perm,
}

abbrev pub HashMap {ℓ κ} : Type ℓ → Type κ → Type (ℓ ⊔ κ)
HashMap K V = List (K × V)

module _ {ℓ κ} {K : Type ℓ} {V : Type κ} ⦃e : HashKey K⦄ where
  unfoldable pub get : HashMap K V → K → Option V
  get [] k = none
  get ((j, w) ∷ m) k = if j == k then some w else get m k

  unfoldable pub insert : K → V → HashMap K V → HashMap K V
  insert k v [] = (k, v) ∷ []
  insert k v ((j, w) ∷ m) = if j == k then (k, v) ∷ m else (j, w) ∷ insert k v m

  unfoldable pub remove : K → HashMap K V → HashMap K V
  remove k [] = []
  remove k ((j, w) ∷ m) = let rest = remove k m in if j == k then rest else (j, w) ∷ rest

-- Some order of iteration.
pub record Arrangement {ℓ} (A : Type ℓ) : Type ℓ where
  pub arrange : List A → List A
  pub arrange-perm : (l : List A) → Perm (arrange l) l

-- The order of insertion.
abbrev pub in_order {ℓ} : {A : Type ℓ} → Arrangement A
in_order = record { arrange = λ l. l; arrange-perm = λ l. Perm.refl l }
