-- ===== src/Write/Compare/Found.antt =====
-- The points that the test expects: of each key the last point of its group.
use Prim.Native.Nat.Ordering.{lt, eq, gt}
use mathlib.Core.List.{mem-cons, mem-cons_self, not-mem-nil}
use mathlib.Core.Logic.Or
use mathlib.Core.Bool.{false≢true}
use horaedb_client_rs.Prelude.{
  ◌≡◌, ◌≢◌, refl, ap, sym, ◌∙◌, false, Option, none, some, List, [], ◌∷◌, map, Mem, All-Mem,
  bool_set, str_eqb_iff, Str, Ordering, Option-cases, inl, inr, ◌⊎◌, str_eq, ◌==◌, subst,
}
use horaedb_client_rs.BTreeMap
use horaedb_client_rs.BTreeMap.{BTreeMap, IsSorted}
use horaedb_client_rs.BTreeMap.Laws.{get-insert_self, get-insert_ne}
use horaedb_client_rs.BTreeMap.Same.{collect-IsSorted}
use horaedb_client_rs.HashMap.Entries.{IsDistinct}
use horaedb_client_rs.Write.Point.{Point}
use horaedb_client_rs.Write.Compare.{CmpKey, cmp_ord, make_cmp_key, with_key, extend_all}
use horaedb_client_rs.Write.Compare.Last.{or_else, if_eq, last_of_key}

get-insert :
    (m : BTreeMap CmpKey Point) (k q : CmpKey) (p : Point)
    → BTreeMap.get (BTreeMap.insert k p m) q ≡ if_eq (cmp_ord.order q k) (some p) (BTreeMap.get m q)
get-insert m k q p = by_order (cmp_ord.order q k) refl
  where
    differs : (r : Ordering) → cmp_ord.order q k ≡ r → r ≢ eq → q ≢ k
    differs r e n same = n (sym e ∙ ap (λ x. cmp_ord.order x k) same ∙ cmp_ord.order_self k)

    by_order :
        (r : Ordering)
        → cmp_ord.order q k ≡ r
        → BTreeMap.get (BTreeMap.insert k p m) q ≡ if_eq r (some p) (BTreeMap.get m q)
    by_order lt e = get-insert_ne m k q p (differs lt e (λ x. cc))
    by_order eq e =
        subst (λ x. BTreeMap.get (BTreeMap.insert k p m) x ≡ some p)
          (sym (cmp_ord.eq_of_order q k e)) (get-insert_self m k p)
    by_order gt e = get-insert_ne m k q p (differs gt e (λ x. cc))

or_else-if_eq :
    (o a : Option Point) (p : Point) (r : Ordering)
    → or_else o (if_eq r (some p) a) ≡ or_else (or_else o (if_eq r (some p) none)) a
or_else-if_eq (some q) a p r = refl
or_else-if_eq none a p lt = refl
or_else-if_eq none a p eq = refl
or_else-if_eq none a p gt = refl

-- A group overwrites what is there by its last point of the key.
get-collect :
    (l : List Point) (m : BTreeMap CmpKey Point) (k : CmpKey)
    → BTreeMap.get (BTreeMap.collect (map with_key l) m) k
      ≡ or_else (last_of_key k l) (BTreeMap.get m k)
unfolding BTreeMap.collect
get-collect [] m k = refl
get-collect (p ∷ l) m k =
    get-collect l (BTreeMap.insert (make_cmp_key p) p m) k
    ∙ ap (or_else (last_of_key k l)) (get-insert m (make_cmp_key p) k p)
    ∙ or_else-if_eq (last_of_key k l) (BTreeMap.get m k) p (cmp_ord.order k (make_cmp_key p))

pub extend_all-IsSorted :
    (groups : List (Str × List Point)) (m : BTreeMap CmpKey Point)
    → IsSorted m
    → IsSorted (extend_all groups m)
extend_all-IsSorted [] m s = s
extend_all-IsSorted ((t, g) ∷ groups) m s =
    extend_all-IsSorted groups (BTreeMap.collect (map with_key g) m)
      (collect-IsSorted (map with_key g) m s)

-- Groups without the key leave what is there.
extend_all-without :
    (groups : List (Str × List Point)) (m : BTreeMap CmpKey Point) (k : CmpKey)
    → ((u : Str) (f : List Point) → Mem (u, f) groups → last_of_key k f ≡ none)
    → BTreeMap.get (extend_all groups m) k ≡ BTreeMap.get m k
extend_all-without [] m k h = refl
extend_all-without ((t, g) ∷ groups) m k h =
    extend_all-without groups (BTreeMap.collect (map with_key g) m) k
      (λ u f n. h u f (mem-cons.1 (Or.inr n)))
    ∙ get-collect g m k
    ∙ ap (λ o. or_else o (BTreeMap.get m k)) (h t g mem-cons_self)

Point-option_set : IsSet (Option Point)
Point-option_set = hlevel

-- The last point of the only group that has the key is found.
pub extend_all-finds :
    (groups : List (Str × List Point)) (m : BTreeMap CmpKey Point) (k : CmpKey) (q : Point)
    (t : Str) (g : List Point)
    → IsDistinct groups
    → Mem (t, g) groups
    → last_of_key k g ≡ some q
    → ((u : Str) (f : List Point) → Mem (u, f) groups → u ≢ t → last_of_key k f ≡ none)
    → BTreeMap.get (extend_all groups m) k ≡ some q
extend_all-finds [] m k q t g d n e h = absurd (not-mem-nil n)
extend_all-finds ((u, f) ∷ groups) m k q t g d n e h =
    Or.elim (Point-option_set _ _) (mem-cons.0 n)
      (λ same.
        let table : t ≡ u = ap (λ (x : Str × List Point). x.0) same in
        let group : g ≡ f = ap (λ (x : Str × List Point). x.1) same in
        extend_all-without groups (BTreeMap.collect (map with_key f) m) k (λ v c there.
          h v c (mem-cons.1 (Or.inr there)) (λ x. false≢true (
            sym (
              All-Mem (λ (x : Str × List Point). (x.0 == u) ≡ false) (v, c) groups (bool_set _ _)
                d.0 there)
            ∙ (str_eqb_iff v u).1 (x ∙ table))))
        ∙ get-collect f m k
        ∙ ap (λ o. or_else o (BTreeMap.get m k)) (ap (last_of_key k) (sym group) ∙ e))
      (λ later.
        extend_all-finds groups (BTreeMap.collect (map with_key f) m) k q t g d.1 later e
          (λ v c there. h v c (mem-cons.1 (Or.inr there))))

-- A group of a list whose last point of the key this is.
pub record HasLast (k : CmpKey) (q : Point) (groups : List (Str × List Point)) : Type 0 where
  pub table : Str
  pub group : List Point
  pub member : Mem (table, group) groups
  pub last : last_of_key k group ≡ some q

-- What is found was there, or it is the last point of the key in some group.
pub extend_all-HasLast :
    (groups : List (Str × List Point)) (m : BTreeMap CmpKey Point) (k : CmpKey) (q : Point)
    → BTreeMap.get (extend_all groups m) k ≡ some q
    → HasLast k q groups ⊎ (BTreeMap.get m k ≡ some q)
extend_all-HasLast [] m k q e = inr e
extend_all-HasLast ((t, g) ∷ groups) m k q e =
    elim (extend_all-HasLast groups (BTreeMap.collect (map with_key g) m) k q e) [
      | inl i ↦ inl (record {
        table = i.table;
        group = i.group;
        member = mem-cons.1 (Or.inr i.member);
        last = i.last;
      })
      | inr found ↦ elim (Option-cases (last_of_key k g)) [
        | inl none_here ↦ inr (rw none_here at (sym (get-collect g m k) ∙ found))
        | inr (z, here) ↦ inl (record {
          table = t;
          group = g;
          member = mem-cons_self;
          last = here ∙ (rw here at (sym (get-collect g m k) ∙ found));
        })
      ]
    ]
