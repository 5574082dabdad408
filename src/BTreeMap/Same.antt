-- ===== src/BTreeMap/Same.antt =====
-- Sorted maps are told apart by what is found in them.
use Prim.Native.Nat.Ordering.{lt, eq, gt}
use horaedb_client_rs.Prelude.{
  ◌≡◌, ◌≢◌, refl, sym, ◌∙◌, none, some, List, [], ◌∷◌, SortKey, All, Mem, some_inj, arith, subst,
  ◌⊎◌, inl, inr, Ordering,
}
use mathlib.Core.Path.{ap₂}
use mathlib.Core.List.{mem-cons}
use mathlib.Core.Logic.Or
use horaedb_client_rs.BTreeMap.{BTreeMap, insert, get, collect, IsSorted}
use horaedb_client_rs.BTreeMap.Laws.{insert-IsSorted, All-lt_trans}

pub none_given {ℓ} : {A : Type ℓ} (a : A) → none ≢ some a
none_given a e = cc

pub order-cases : (r : Ordering) → (r ≡ eq) ⊎ (r ≢ eq)
order-cases lt = inr (λ e. cc)
order-cases eq = inl refl
order-cases gt = inr (λ e. cc)

neither_less {ℓ} :
    {K : Type ℓ} ⦃o : SortKey K⦄ (j k : K) → o.order j k ≢ lt → o.order k j ≢ lt → j ≡ k
neither_less ⦃o⦄ j k a b = by_order (o.order j k) refl
  where
    by_order : (r : Ordering) → o.order j k ≡ r → j ≡ k
    by_order lt e = absurd (a e)
    by_order eq e = o.eq_of_order j k e
    by_order gt e = absurd (b ((o.order_flip j k).0 e))

module _ {ℓ κ} {K : Type ℓ} {V : Type κ} ⦃o : SortKey K⦄ where
  pub collect-IsSorted : (l : List (K × V)) (m : BTreeMap K V) → IsSorted m → IsSorted (collect l m)
  unfolding collect
  collect-IsSorted [] m s = s
  collect-IsSorted ((k, v) ∷ l) m s = collect-IsSorted l (insert k v m) (insert-IsSorted k v m s)

  -- A key below all keys is not there.
  get-below : (k : K) (m : BTreeMap K V) → All (λ e. o.order k e.0 ≡ lt) m → get m k ≡ none
  unfolding get
  get-below k [] b = refl
  get-below k ((j, w) ∷ m) b = rw (b.0, get) (get-below k m b.1)

  get-head : (k : K) (v : V) (m : BTreeMap K V) → get ((k, v) ∷ m) k ≡ some v
  unfolding get
  get-head k v m = rw (o.order_self k, get) refl

  get-tail : (j : K) (v : V) (m : BTreeMap K V) (k : K) → j ≢ k → get ((j, v) ∷ m) k ≡ get m k
  unfolding get
  get-tail j v m k n = ground (arith, o.eq_of_order k j, n_of (o.eq_of_order k j))
    where
      n_of : (o.order k j ≡ eq → k ≡ j) → o.order k j ≢ eq
      n_of f e = n (sym (f e))

  -- The least keys of two sorted maps in which the same is found are the same.
  same-head :
      (j k : K) (v w : V) (m n : BTreeMap K V)
      → IsSorted ((k, w) ∷ n)
      → ((q : K) → get ((j, v) ∷ m) q ≡ get ((k, w) ∷ n) q)
      → o.order j k ≢ lt
  same-head j k v w m n s h b =
      none_given v
        (sym (get-below j ((k, w) ∷ n) (b, All-lt_trans j k n b s.0)) ∙ sym (h j) ∙ get-head j v m)

  get_ends :
      (j : K) (v w : V) (m n : BTreeMap K V)
      → IsSorted ((j, v) ∷ m)
      → IsSorted ((j, w) ∷ n)
      → ((q : K) → get ((j, v) ∷ m) q ≡ get ((j, w) ∷ n) q)
      → (q : K) → get m q ≡ get n q
  get_ends j v w m n s t h q = elim (order-cases (o.order j q)) [
    | inl here ↦
        let same = o.eq_of_order j q here in
        subst (λ x. get m x ≡ get n x) same (get-below j m s.0 ∙ sym (get-below j n t.0))
    | inr other ↦
        let n_eq : j ≢ q = λ e. other (rw (sym e) (o.order_self j)) in
        sym (get-tail j v m q n_eq) ∙ h q ∙ get-tail j w n q n_eq
  ]

  pub sorted_ext :
      (m n : BTreeMap K V) → IsSorted m → IsSorted n → ((k : K) → get m k ≡ get n k) → m ≡ n
  unfolding get
  sorted_ext [] [] s t h = refl
  sorted_ext [] ((k, w) ∷ n) s t h = absurd (none_given w (h k ∙ get-head k w n))
  sorted_ext ((j, v) ∷ m) [] s t h = absurd (none_given v (sym (h j) ∙ get-head j v m))
  sorted_ext ((j, v) ∷ m) ((k, w) ∷ n) s t h =
      let same =
        neither_less j k (same-head j k v w m n t h) (same-head k j w v n m s (λ q. sym (h q))) in
      let t' = subst (λ x. IsSorted ((x, w) ∷ n)) (sym same) t in
      let h' = subst (λ x. (q : K) → get ((j, v) ∷ m) q ≡ get ((x, w) ∷ n) q) (sym same) h in
      let value = some_inj (sym (get-head j v m) ∙ h' j ∙ get-head j w n) in
      ap₂ (λ x y. x ∷ y) (ap₂ (λ x y. (x, y)) same value)
        (sorted_ext m n s.1 t.1 (get_ends j v w m n s t' h'))

  pub Mem-get : (m : BTreeMap K V) (k : K) (v : V) → get m k ≡ some v → Mem (k, v) m
  unfolding get
  Mem-get [] k v h = cc
  Mem-get ((j, w) ∷ m) k v h = elim (order-cases (o.order j k)) [
    | inl here ↦
        let same = o.eq_of_order j k here in
        mem-cons.1 (
          Or.inl (
            ap₂ (λ x y. (x, y)) (sym same)
              (some_inj
                (sym (subst (λ x. get ((j, w) ∷ m) x ≡ some v) (sym same) h) ∙ get-head j w m))))
    | inr other ↦ mem-cons.1 (
        Or.inr
          (Mem-get m k v (sym (get-tail j w m k (λ e. other (rw (sym e) (o.order_self j)))) ∙ h)))
  ]
