-- ===== src/Write/Compare/Last.antt =====
-- The last point of a list that has a key.
use Prim.Native.Nat.Ordering.{lt, eq, gt}
use mathlib.Core.Path.{ap₂}
use mathlib.Core.List.{append_cancel_left, mem-cons}
use mathlib.Core.Logic.Or
use mathlib.Core.Bool.{false≢true}
use horaedb_client_rs.Prelude.{
  ◌≡◌, refl, ap, sym, ◌∙◌, false, Option, none, some, List, [], ◌∷◌, ◌++◌, Mem, All, Str, Ordering,
  Option-cases, Bool-cases, inl, inr, str_eq, some_inj, if◌then◌else◌,
}
use horaedb_client_rs.Write.Point.{Point}
use horaedb_client_rs.Write.Key.{TagsKey, make_tags_key}
use horaedb_client_rs.Value.{TimestampMs}
use horaedb_client_rs.Write.Survive.{fits, fits_of, fits-key, fits-timestamp, last_point}
use horaedb_client_rs.Write.Compare.{CmpKey, cmp_ord, make_cmp_key}
use horaedb_client_rs.BTreeMap.Same.{none_given}

abbrev pub or_else : Option Point → Option Point → Option Point
or_else (some q) o = some q
or_else none o = o

-- The first where two keys are equal, or else the second.
abbrev pub if_eq : Ordering → Option Point → Option Point → Option Point
if_eq lt a b = b
if_eq eq a b = a
if_eq gt a b = b

-- The last point with a key.
abbrev pub last_of_key : CmpKey → List Point → Option Point
last_of_key k [] = none
last_of_key k (p ∷ points) =
    or_else (last_of_key k points) (if_eq (cmp_ord.order k (make_cmp_key p)) (some p) none)

if_eq-some : (r : Ordering) (p q : Point) → if_eq r (some p) none ≡ some q → (r ≡ eq) × (p ≡ q)
if_eq-some lt p q e = absurd (none_given q e)
if_eq-some eq p q e = (refl, some_inj e)
if_eq-some gt p q e = absurd (none_given q e)

pub last_of_key_sound :
    (k : CmpKey) (q : Point) (l : List Point)
    → last_of_key k l ≡ some q
    → Mem q l × (make_cmp_key q ≡ k)
last_of_key_sound k q [] e = cc
last_of_key_sound k q (p ∷ l) e = elim (Option-cases (last_of_key k l)) [
  | inr (z, later) ↦
      let i = last_of_key_sound k q l (later ∙ (rw later at e)) in (mem-cons.1 (Or.inr i.0), i.1)
  | inl none_later ↦
      let (same, is_p) = if_eq-some (cmp_ord.order k (make_cmp_key p)) p q (rw none_later at e) in
      (
        mem-cons.1 (Or.inl (sym is_p)),
        ap make_cmp_key (sym is_p) ∙ sym (cmp_ord.eq_of_order k (make_cmp_key p) same),
      )
]

-- In a table, the test of `last_of_key` is the one of `last_point`.
if_eq-fits :
    (t : Str) (k : TagsKey) (ts : TimestampMs) (p : Point)
    → p.table ≡ t
    → if_eq (cmp_ord.order (t ++ k, ts) (make_cmp_key p)) (some p) none
      ≡ (if fits k ts p then some p else none)
unfolding make_cmp_key
if_eq-fits t k ts p here = elim (Bool-cases (fits k ts p)) [
  | inl fit ↦
      ap (λ (r : Ordering). if_eq r (some p) none)
        (ap (λ (x : CmpKey). cmp_ord.order (t ++ k, ts) x)
            (ap₂ (λ x y. (x, y)) (ap₂ (λ x y. x ++ y) here (fits-key k ts p fit))
              (fits-timestamp k ts p fit))
          ∙ cmp_ord.order_self (t ++ k, ts))
      ∙ rw fit refl
  | inr unfit ↦ by_order unfit (cmp_ord.order (t ++ k, ts) (make_cmp_key p)) refl ∙ rw unfit refl
]
  where
    by_order :
        fits k ts p ≡ false
        → (r : Ordering) → cmp_ord.order (t ++ k, ts) (make_cmp_key p) ≡ r
        → if_eq r (some p) none ≡ none
    by_order unfit lt e = refl
    by_order unfit eq e =
        let same = cmp_ord.eq_of_order (t ++ k, ts) (make_cmp_key p) e in
        let key =
          append_cancel_left t (make_tags_key p.tags) k (
            ap (λ x. x ++ make_tags_key p.tags) (sym here) ∙ sym (ap (λ (x : CmpKey). x.0) same)) in
        absurd (false≢true (sym unfit ∙ fits_of k ts p key (sym (ap (λ (x : CmpKey). x.1) same))))
    by_order unfit gt e = refl

or_else-elim : (o b : Option Point) → or_else o b ≡ elim o [ some q ↦ some q | none ↦ b ]
or_else-elim (some q) b = refl
or_else-elim none b = refl

-- In a group of one table the key of the test is the key of the series and the time.
pub last_of_key-last_point :
    (t : Str) (k : TagsKey) (ts : TimestampMs) (l : List Point)
    → All (λ p. p.table ≡ t) l
    → last_of_key (t ++ k, ts) l ≡ last_point k ts l
last_of_key-last_point t k ts [] a = refl
last_of_key-last_point t k ts (p ∷ l) a =
    ap₂ or_else (last_of_key-last_point t k ts l a.1) (if_eq-fits t k ts p a.0)
    ∙ or_else-elim (last_point k ts l) (if fits k ts p then some p else none)
