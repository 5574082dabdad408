-- ===== src/Write/Compare/Ordered.antt =====
-- Sorting points whose keys differ is inserting them into a sorted map.
use Prim.Native.Nat.Ordering.{lt, eq, gt}
use mathlib.Core.List.{mem-cons, mem-cons_self, not-mem-nil, Pairwise, Mem-prop}
use mathlib.Core.Logic.Or
use mathlib.Core.HLevel.{×_prop}
use horaedb_client_rs.Prelude.{
  ◌≡◌, ◌≢◌, refl, ap, sym, ◌∙◌, Option, some, List, [], ◌∷◌, map, Mem, Ordering, subst,
}
use horaedb_client_rs.BTreeMap
use horaedb_client_rs.BTreeMap.{BTreeMap, IsSorted}
use horaedb_client_rs.BTreeMap.Laws.{insert-IsSorted, get-insert_self, get-insert_ne}
use horaedb_client_rs.BTreeMap.Same.{Mem-get}
use horaedb_client_rs.Write.Point.{Point}
use horaedb_client_rs.Write.Compare.{
  CmpKey, cmp_ord, make_cmp_key, insert_point, make_ordered, with_key,
}

Mem-insert_point : (p q : Point) (l : List Point) → Mem q (insert_point p l) → Mem q (p ∷ l)
Mem-insert_point p q [] m = m
Mem-insert_point p q (x ∷ l) m =
    by_order (cmp_ord.order (make_cmp_key p) (make_cmp_key x)) (Mem-insert_point p q l) m
  where
    by_order :
        (r : Ordering)
        → (Mem q (insert_point p l) → Mem q (p ∷ l))
        → Mem q (elim r [ lt ↦ p ∷ x ∷ l | eq ↦ p ∷ x ∷ l | gt ↦ x ∷ insert_point p l ])
        → Mem q (p ∷ x ∷ l)
    by_order lt rest n = n
    by_order eq rest n = n
    by_order gt rest n =
        Or.elim Mem-prop (mem-cons.0 n) (λ e. mem-cons.1 (Or.inr (mem-cons.1 (Or.inl e))))
          (λ later.
            Or.elim Mem-prop (mem-cons.0 (rest later)) (λ e. mem-cons.1 (Or.inl e))
              (λ there. mem-cons.1 (Or.inr (mem-cons.1 (Or.inr there)))))

pub Mem-make_ordered : (q : Point) (l : List Point) → Mem q (make_ordered l) → Mem q l
unfolding make_ordered
Mem-make_ordered q [] m = m
Mem-make_ordered q (p ∷ l) m =
    Or.elim Mem-prop (mem-cons.0 (Mem-insert_point p q (make_ordered l) m))
      (λ e. mem-cons.1 (Or.inl e)) (λ n. mem-cons.1 (Or.inr (Mem-make_ordered q l n)))

abbrev pub KeysDiffer : Point → Point → Type 0
KeysDiffer p q = make_cmp_key p ≢ make_cmp_key q

with_key-insert_point :
    (p : Point) (l : List Point)
    → ((q : Point) → Mem q l → KeysDiffer p q)
    → map with_key (insert_point p l) ≡ BTreeMap.insert (make_cmp_key p) p (map with_key l)
unfolding BTreeMap.insert
with_key-insert_point p [] h = refl
with_key-insert_point p (x ∷ l) h =
    by_order (cmp_ord.order (make_cmp_key p) (make_cmp_key x))
      (with_key-insert_point p l (λ q n. h q (mem-cons.1 (Or.inr n)))) refl
  where
    by_order :
        (r : Ordering)
        → map with_key (insert_point p l) ≡ BTreeMap.insert (make_cmp_key p) p (map with_key l)
        → cmp_ord.order (make_cmp_key p) (make_cmp_key x) ≡ r
        → map with_key (elim r [ lt ↦ p ∷ x ∷ l | eq ↦ p ∷ x ∷ l | gt ↦ x ∷ insert_point p l ])
          ≡ elim r [
            | lt ↦ with_key p ∷ with_key x ∷ map with_key l
            | eq ↦ with_key p ∷ map with_key l
            | gt ↦ with_key x ∷ BTreeMap.insert (make_cmp_key p) p (map with_key l)
          ]
    by_order lt rest e = refl
    by_order eq rest e = absurd (h x mem-cons_self (cmp_ord.eq_of_order _ _ e))
    by_order gt rest e = ap (λ m. with_key x ∷ m) rest

with_key-make_ordered :
    (p : Point) (l : List Point)
    → Pairwise KeysDiffer (p ∷ l)
    → map with_key (make_ordered (p ∷ l))
      ≡ BTreeMap.insert (make_cmp_key p) p (map with_key (make_ordered l))
unfolding make_ordered
with_key-make_ordered p l (Pairwise.cons h d) =
    with_key-insert_point p (make_ordered l) (λ q m. h q (Mem-make_ordered q l m))

pub make_ordered-IsSorted :
    (l : List Point) → Pairwise KeysDiffer l → IsSorted (map with_key (make_ordered l))
unfolding make_ordered
make_ordered-IsSorted [] d = tt
make_ordered-IsSorted (p ∷ l) (Pairwise.cons h d) =
    subst IsSorted (sym (with_key-make_ordered p l (Pairwise.cons h d))) (
      insert-IsSorted (make_cmp_key p) p (map with_key (make_ordered l))
        (make_ordered-IsSorted l d))

Point-option_set : IsSet (Option Point)
Point-option_set = hlevel

-- A point of the list is found under its key.
pub get-make_ordered :
    (q : Point) (l : List Point)
    → Pairwise KeysDiffer l
    → Mem q l
    → BTreeMap.get (map with_key (make_ordered l)) (make_cmp_key q) ≡ some q
get-make_ordered q [] d m = absurd (not-mem-nil m)
get-make_ordered q (p ∷ l) (Pairwise.cons h d) m =
    ap (λ m. BTreeMap.get m (make_cmp_key q)) (with_key-make_ordered p l (Pairwise.cons h d))
    ∙ Or.elim (Point-option_set _ _) (mem-cons.0 m)
        (λ e.
          subst
            (λ x.
              BTreeMap.get (BTreeMap.insert (make_cmp_key p) p (map with_key (make_ordered l)))
                (make_cmp_key x)
              ≡ some x)
            (sym e) (get-insert_self (map with_key (make_ordered l)) (make_cmp_key p) p))
        (λ n.
          get-insert_ne (map with_key (make_ordered l)) (make_cmp_key p) (make_cmp_key q) p
            (λ e. h q n (sym e))
          ∙ get-make_ordered q l d n)

Key-set : IsSet CmpKey
Key-set = hlevel

pub Mem-with_key :
    (q : Point) (k : CmpKey) (l : List Point)
    → Mem (k, q) (map with_key l)
    → Mem q l × (make_cmp_key q ≡ k)
Mem-with_key q k [] m = absurd (not-mem-nil m)
Mem-with_key q k (p ∷ l) m =
    Or.elim (×_prop Mem-prop (Key-set _ _)) (mem-cons.0 m)
      (λ e.
        let same : q ≡ p = ap (λ (x : CmpKey × Point). x.1) e in
        (mem-cons.1 (Or.inl same), ap make_cmp_key same ∙ sym (ap (λ (x : CmpKey × Point). x.0) e)))
      (λ n. let rest = Mem-with_key q k l n in (mem-cons.1 (Or.inr rest.0), rest.1))

-- What is found under a key is a point of the list with this key.
pub get-make_ordered_sound :
    (q : Point) (k : CmpKey) (l : List Point)
    → BTreeMap.get (map with_key (make_ordered l)) k ≡ some q
    → Mem q l × (make_cmp_key q ≡ k)
get-make_ordered_sound q k l e =
    let there = Mem-with_key q k (make_ordered l) (Mem-get (map with_key (make_ordered l)) k q e) in
    (Mem-make_ordered q l there.0, there.1)
