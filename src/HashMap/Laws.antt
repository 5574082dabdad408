-- ===== src/HashMap/Laws.antt =====
-- `get` after `insert` and `remove`.
use horaedb_client_rs.Prelude.{◌≡◌, refl, none, some, [], ◌∷◌, HashKey, ◌==◌, if◌then◌else◌, arith}
use horaedb_client_rs.HashMap.{HashMap, get, insert, remove}

module _ {ℓ κ} {K : Type ℓ} {V : Type κ} ⦃e : HashKey K⦄ where
  pub get-insert :
      (m : HashMap K V) (k q : K) (v : V)
      → get (insert k v m) q ≡ (if k == q then some v else get m q)
  unfolding get insert
  get-insert [] k q v = refl
  get-insert ((j, w) ∷ m) k q v =
      ground (arith, get-insert m k q v, e.same_iff j k, e.same_iff k q, e.same_iff j q)

  pub get-remove :
      (m : HashMap K V) (k q : K) → get (remove k m) q ≡ (if k == q then none else get m q)
  unfolding get remove
  get-remove [] k q = ground arith
  get-remove ((j, w) ∷ m) k q =
      ground (arith, get-remove m k q, e.same_iff j k, e.same_iff k q, e.same_iff j q)
