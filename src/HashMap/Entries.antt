-- ===== src/HashMap/Entries.antt =====
-- The entries of a map: what holds of each value, what the values weigh, and that keys are distinct.
use mathlib.Core.List.{mem-cons, not-mem-nil, Pairwise}
use mathlib.Core.List.Perm
use mathlib.Core.Logic.Or
use mathlib.Core.Path.{ap₂}
use mathlib.Core.HLevel.{×_prop}
use horaedb_client_rs.Prelude.{
  All-prop, All-Mem, All-of_each, ℕ, ◌+◌, ◌≡◌, ap, sym, subst, false, Option, none, some, [], ◌∷◌,
  arith, HashKey, ◌==◌, Mem, All, if◌then◌else◌, Bool-cases, bool_set, inl, inr, some_inj,
}
use horaedb_client_rs.HashMap.{HashMap, Arrangement, get, insert}

pub same_flip {ℓ} : {K : Type ℓ} ⦃e : HashKey K⦄ (j k : K) → (j == k) ≡ false → (k == j) ≡ false
same_flip ⦃e⦄ j k n = ground (arith, e.same_iff j k, e.same_iff k j)

-- The sum of the weights of the values.
abbrev pub weight {ℓ κ} : {K : Type ℓ} {V : Type κ} → (V → ℕ) → HashMap K V → ℕ
weight w [] = 0
weight w ((k, v) ∷ m) = w v + weight w m

abbrev pub weight_at {κ} : {V : Type κ} → (V → ℕ) → Option V → ℕ
weight_at w none = 0
weight_at w (some v) = w v

module _ {ℓ κ} {K : Type ℓ} {V : Type κ} ⦃e : HashKey K⦄ where
  pub All-insert {ι} :
      (P : K × V → Type ι) (k : K) (v : V) (m : HashMap K V)
      → P (k, v)
      → All P m
      → All P (insert k v m)
  unfolding insert
  All-insert P k v [] p h = (p, tt)
  All-insert P k v ((j, w) ∷ m) p h = elim (Bool-cases (j == k)) [
    | inl same ↦ rw same (p, h.1)
    | inr other ↦ rw other (h.0, All-insert P k v m p h.1)
  ]

  pub All-get {ι} :
      (P : K × V → Type ι) (k : K) (v : V) (m : HashMap K V) → All P m → get m k ≡ some v → P (k, v)
  unfolding get
  All-get P k v [] h q = cc
  All-get P k v ((j, w) ∷ m) h q = elim (Bool-cases (j == k)) [
    | inl same ↦
        subst P (ap₂ (λ a b. (a, b)) ((e.same_iff j k).0 same) (some_inj (rw same at q))) h.0
    | inr other ↦ All-get P k v m h.1 (rw other at q)
  ]

  pub weight-insert :
      (w : V → ℕ) (k : K) (v : V) (m : HashMap K V)
      → weight w (insert k v m) + weight_at w (get m k) ≡ weight w m + w v
  unfolding get insert
  weight-insert w k v [] = omega arith
  weight-insert w k v ((j, u) ∷ m) = elim (Bool-cases (j == k)) [
    | inl same ↦ rw same (omega arith)
    | inr other ↦ rw other (omega (arith, weight-insert w k v m))
  ]

  -- No key occurs twice.
  abbrev pub IsDistinct : HashMap K V → Type 0
  IsDistinct [] = Unit
  IsDistinct ((k, v) ∷ m) = All (λ (x : K × V). (x.0 == k) ≡ false) m × IsDistinct m

  pub IsDistinct-prop : (m : HashMap K V) → IsProp (IsDistinct m)
  IsDistinct-prop [] = hlevel
  IsDistinct-prop ((k, v) ∷ m) =
      ×_prop (All-prop (λ (x : K × V). (x.0 == k) ≡ false) (λ x. bool_set _ _) m)
        (IsDistinct-prop m)

  insert-IsFresh :
      (j k : K) (v : V) (m : HashMap K V)
      → (k == j) ≡ false
      → All (λ (x : K × V). (x.0 == j) ≡ false) m
      → All (λ (x : K × V). (x.0 == j) ≡ false) (insert k v m)
  unfolding insert
  insert-IsFresh j k v [] n h = (n, tt)
  insert-IsFresh j k v ((i, w) ∷ m) n h = elim (Bool-cases (i == k)) [
    | inl same ↦ rw same (n, h.1)
    | inr other ↦ rw other (h.0, insert-IsFresh j k v m n h.1)
  ]

  pub insert-IsDistinct :
      (k : K) (v : V) (m : HashMap K V) → IsDistinct m → IsDistinct (insert k v m)
  unfolding insert
  insert-IsDistinct k v [] d = (tt, tt)
  insert-IsDistinct k v ((j, w) ∷ m) d = elim (Bool-cases (j == k)) [
    | inl same ↦
        rw same (
          subst (λ i. All (λ (x : K × V). (x.0 == i) ≡ false) m) ((e.same_iff j k).0 same) d.0,
          d.1,
        )
    | inr other ↦
        rw other (insert-IsFresh j k v m (same_flip j k other) d.0, insert-IsDistinct k v m d.1)
  ]

  pub Mem-get : (m : HashMap K V) (k : K) (v : V) → get m k ≡ some v → Mem (k, v) m
  unfolding get
  Mem-get [] k v h = cc
  Mem-get ((j, w) ∷ m) k v h = elim (Bool-cases (j == k)) [
    | inl same ↦ mem-cons.1 (
        Or.inl
          (ap₂ (λ a b. (a, b)) (sym ((e.same_iff j k).0 same)) (sym (some_inj (rw same at h)))))
    | inr other ↦ mem-cons.1 (Or.inr (Mem-get m k v (rw other at h)))
  ]

  fresh-Mem :
      (m : HashMap K V) (j k : K) (v : V)
      → All (λ (x : K × V). (x.0 == j) ≡ false) m
      → Mem (k, v) m
      → (j == k) ≡ false
  fresh-Mem [] j k v h q = absurd (not-mem-nil q)
  fresh-Mem ((i, w) ∷ m) j k v h q =
      Or.elim (bool_set _ _) (mem-cons.0 q)
        (λ p. subst (λ z. (j == z) ≡ false) (sym (ap (λ (x : K × V). x.0) p)) (same_flip i j h.0))
        (λ n. fresh-Mem m j k v h.1 n)

  -- Of distinct keys each entry is the one that is found.
  pub get-Mem :
      IsSet (Option V)
      → (m : HashMap K V) (k : K) (v : V) → IsDistinct m
      → Mem (k, v) m
      → get m k ≡ some v
  unfolding get
  get-Mem s [] k v d q = absurd (not-mem-nil q)
  get-Mem s ((j, w) ∷ m) k v d q =
      Or.elim (s _ _) (mem-cons.0 q)
        (λ p. here (ap (λ (x : K × V). x.0) p) (ap (λ (x : K × V). x.1) p))
        (λ n. rw (fresh-Mem m j k v d.0 n) (get-Mem s m k v d.1 n))
    where
      here : k ≡ j → v ≡ w → (if j == k then some w else get m k) ≡ some v
      here p q = rw ((e.same_iff j k).1 (sym p)) (ap some (sym q))

  -- Distinct keys are distinct in every order of the entries.
  abbrev Differ : K × V → K × V → Type 0
  Differ a b = (b.0 == a.0) ≡ false

  IsDistinct-Pairwise : (m : HashMap K V) → IsDistinct m → Pairwise Differ m
  IsDistinct-Pairwise [] d = Pairwise.nil
  IsDistinct-Pairwise (x ∷ m) d =
      Pairwise.cons (λ y q. All-Mem (λ z. (z.0 == x.0) ≡ false) y m (bool_set _ _) d.0 q)
        (IsDistinct-Pairwise m d.1)

  Pairwise-IsDistinct : (m : HashMap K V) → Pairwise Differ m → IsDistinct m
  Pairwise-IsDistinct [] p = tt
  Pairwise-IsDistinct (x ∷ m) (Pairwise.cons h p) =
      (All-of_each (λ z. (z.0 == x.0) ≡ false) m h, Pairwise-IsDistinct m p)

  pub arrange-IsDistinct :
      (h : Arrangement (K × V)) (m : HashMap K V) → IsDistinct m → IsDistinct (h.arrange m)
  arrange-IsDistinct h m d = Pairwise-IsDistinct (h.arrange m) (
      Perm.pairwise {R = Differ} (λ a b. bool_set _ _) (λ a b r. same_flip b.0 a.0 r)
        (Perm.symm (h.arrange-perm m)) (IsDistinct-Pairwise m d))
