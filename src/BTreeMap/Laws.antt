-- ===== src/BTreeMap/Laws.antt =====
-- `get` after `insert`, the order of the entries, and `collect` of entries in order.
use Prim.Native.Nat.Ordering.{lt, gt}
use mathlib.Core.Bool.{false≢true}
use mathlib.Core.List.{append-nil, append_assoc, mem-cons, not-mem-nil}
use mathlib.Core.Logic.Or
use horaedb_client_rs.Prelude.{
  ap, subst, is_empty, HashKey, ◌==◌, if◌then◌else◌, Bool-cases, inl, inr, sym, ◌∙◌, false, ◌≡◌,
  ◌≢◌, refl, some, [], ◌∷◌, ◌++◌, arith, SortKey, All, All-Mem, Mem, Option, Ordering,
}
use horaedb_client_rs.BTreeMap.{BTreeMap, insert, get, collect, IsSorted}

module _ {ℓ κ} {K : Type ℓ} {V : Type κ} ⦃o : SortKey K⦄ where
  pub get-insert_self : (m : BTreeMap K V) (k : K) (v : V) → get (insert k v m) k ≡ some v
  unfolding get insert
  get-insert_self [] k v = ground (arith, o.order_self k)
  get-insert_self ((j, w) ∷ m) k v = ground (arith, o.order_self k, get-insert_self m k v)

  pub get-insert_ne : (m : BTreeMap K V) (k q : K) (v : V) → q ≢ k → get (insert k v m) q ≡ get m q
  unfolding get insert
  get-insert_ne [] k q v h = ground (arith, o.eq_of_order q k)
  get-insert_ne ((j, w) ∷ m) k q v h =
      ground (arith, o.eq_of_order q k, o.eq_of_order k j, get-insert_ne m k q v h)

  -- What holds of the entries of a map and of a new entry holds after its insertion.
  pub All-insert {ι} :
      (P : K × V → Type ι) (k : K) (v : V) (m : BTreeMap K V)
      → P (k, v)
      → All P m
      → All P (insert k v m)
  unfolding insert
  All-insert P k v [] p h = (p, tt)
  All-insert P k v ((j, w) ∷ m) p h = ground (arith, All-insert P k v m p h.1)

  pub All-lt_trans :
      (k j : K) (m : BTreeMap K V)
      → o.order k j ≡ lt
      → All (λ e. o.order j e.0 ≡ lt) m
      → All (λ e. o.order k e.0 ≡ lt) m
  All-lt_trans k j [] h a = tt
  All-lt_trans k j ((i, w) ∷ m) h a = (o.order_trans k j i h a.0, All-lt_trans k j m h a.1)

  -- `insert` keeps the keys in order.
  pub insert-IsSorted : (k : K) (v : V) (m : BTreeMap K V) → IsSorted m → IsSorted (insert k v m)
  unfolding insert
  insert-IsSorted k v [] s = (tt, tt)
  insert-IsSorted k v ((j, w) ∷ m) s = ground (
    arith,
    o.eq_of_order k j,
    o.order_flip k j,
    All-lt_trans k j m,
    All-insert (λ e. o.order j e.0 ≡ lt) k v m,
    insert-IsSorted k v m s.1,
  )

  -- An entry whose key lies beyond all others goes to the end.
  insert_last :
      (k : K) (v : V) (m : BTreeMap K V)
      → All (λ e. o.order k e.0 ≡ gt) m
      → insert k v m ≡ m ++ (k, v) ∷ []
  unfolding insert
  insert_last k v [] a = refl
  insert_last k v ((j, w) ∷ m) a = ground (arith, insert_last k v m a.1)

module _ {ℓ κ} {K : Type ℓ} {V : Type κ} ⦃o : SortKey K⦄ ⦃e : HashKey K⦄ where
  pub get-insert :
      (m : BTreeMap K V) (k q : K) (v : V)
      → get (insert k v m) q ≡ (if k == q then some v else get m q)
  get-insert m k q v = elim (Bool-cases (k == q)) [
    | inl same ↦ rw same (rw (sym ((e.same_iff k q).0 same)) (get-insert_self m k v))
    | inr other ↦
        rw other (get-insert_ne m k q v (λ p. false≢true (sym other ∙ (e.same_iff k q).1 (sym p))))
  ]

pub is_empty-insert {ℓ κ} :
    {K : Type ℓ} {V : Type κ} ⦃o : SortKey K⦄ (k : K) (v : V) (m : BTreeMap K V)
    → is_empty (insert k v m) ≡ false
unfolding insert
is_empty-insert k v [] = refl
is_empty-insert ⦃o⦄ k v ((j, w) ∷ m) = ground arith

module _ {ℓ κ} {K : Type ℓ} {V : Type κ} ⦃o : SortKey K⦄ where
  All-gt_of_sorted :
      (m : BTreeMap K V) (k : K) (v : V) (l : BTreeMap K V)
      → IsSorted (m ++ (k, v) ∷ l)
      → All (λ e. o.order k e.0 ≡ gt) m
  All-gt_of_sorted [] k v l s = tt
  All-gt_of_sorted ((j, w) ∷ m) k v l s =
      ((o.order_flip k j).1 (here m s.0), All-gt_of_sorted m k v l s.1)
    where
      here : (n : BTreeMap K V) → All (λ e. o.order j e.0 ≡ lt) (n ++ (k, v) ∷ l) → o.order j k ≡ lt
      here [] a = a.0
      here (e ∷ n) a = here n a.1

  collect-append : (l m : BTreeMap K V) → IsSorted (m ++ l) → collect l m ≡ m ++ l
  unfolding collect
  collect-append [] m s = sym (append-nil m)
  collect-append ((k, v) ∷ l) m s =
      let moved = append_assoc m ((k, v) ∷ []) l in
      ap (collect l) (insert_last k v m (All-gt_of_sorted m k v l s))
      ∙ collect-append l (m ++ (k, v) ∷ []) (subst IsSorted (sym moved) s)
      ∙ moved

  -- Collecting the entries of a sorted map gives the map back.
  pub collect-sorted : (l : BTreeMap K V) → IsSorted l → collect l [] ≡ l
  collect-sorted l s = collect-append l [] s

  -- In a sorted map each entry is the one that is found.
  pub get-Mem :
      IsSet (Option V)
      → (m : BTreeMap K V) (k : K) (v : V) → IsSorted m
      → Mem (k, v) m
      → get m k ≡ some v
  unfolding get
  get-Mem s [] k v h q = absurd (not-mem-nil q)
  get-Mem s ((j, w) ∷ m) k v h q =
      Or.elim (s _ _) (mem-cons.0 q) (λ p. here (ap (λ x. x.0) p) (ap (λ x. x.1) p))
        (λ n.
          later (All-Mem (λ x. o.order j x.0 ≡ lt) (k, v) m (order_set _ _) h.0 n)
            (get-Mem s m k v h.1 n))
    where
      order_set : IsSet Ordering
      order_set = hlevel

      here : k ≡ j → v ≡ w → get ((j, w) ∷ m) k ≡ some v
      here p q = rw (sym p) (rw (o.order_self k, get) (ap some (sym q)))

      later : o.order j k ≡ lt → get m k ≡ some v → get ((j, w) ∷ m) k ≡ some v
      later p q = rw ((o.order_flip k j).1 p, get) q
