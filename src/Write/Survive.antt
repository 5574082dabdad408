-- ===== src/Write/Survive.antt =====
-- Last write wins: the points of a list that no later point of the same tags and time follows, and what
-- the grouping by keys says of them.
use mathlib.Core.Bool.{false≢true}
use mathlib.Core.List.{mem-cons, not-mem-nil, Mem-prop}
use mathlib.Core.Logic.Or
use mathlib.Core.Logic.{◌∨₁◌, ∨₁_prop}
use horaedb_client_rs.Prelude.{
  ◌≡◌, ◌≢◌, refl, ap, sym, ◌∙◌, Bool, true, false, ◌&&◌, Option, none, some, List, [], ◌∷◌, Mem,
  ◌==◌, str_eq, str_eqb_iff, int_eq, arith, if◌then◌else◌, Bool-cases, bool_set, Option-cases, inl,
  inr, some_inj,
}
use horaedb_client_rs.Value.{TimestampMs}
use horaedb_client_rs.Write.Point.{Point, Columns}
use horaedb_client_rs.Write.Key.{TagsKey, make_tags_key}
use horaedb_client_rs.Write.Series.Laws.{last_fields}

-- No point of the list has these tags and this time.
abbrev pub Absent : Columns → TimestampMs → List Point → Type 0
Absent tags ts ps = (p : Point) → Mem p ps → p.tags ≡ tags → p.timestamp ≢ ts

-- A point of the list that no later point of its tags and time follows.
abbrev pub Survives : Point → List Point → Type 0
Survives q [] = ⊥
Survives q (p ∷ ps) = Survives q ps ∨₁ ((p ≡ q) × Absent q.tags q.timestamp ps)

-- Keys tell the tags of a list of points apart.
abbrev pub KeysApart : List Point → Type 0
KeysApart ps =
    (p q : Point)
    → Mem p ps
    → Mem q ps
    → make_tags_key p.tags ≡ make_tags_key q.tags
    → p.tags ≡ q.tags

abbrev pub fits : TagsKey → TimestampMs → Point → Bool
fits k ts p = (make_tags_key p.tags == k) && (p.timestamp == ts)

abbrev pub last_point : TagsKey → TimestampMs → List Point → Option Point
last_point k ts [] = none
last_point k ts (p ∷ ps) = elim (last_point k ts ps) [
  | some q ↦ some q
  | none ↦ if fits k ts p then some p else none
]

pub last_fields-last_point :
    (k : TagsKey) (ts : TimestampMs) (o : Option Columns) (ps : List Point)
    → last_fields k ts o ps ≡ elim (last_point k ts ps) [ some q ↦ some q.fields | none ↦ o ]
last_fields-last_point k ts o [] = refl
last_fields-last_point k ts o (p ∷ ps) =
    ground (arith, last_fields-last_point k ts (if fits k ts p then some p.fields else o) ps)

pub fits-key :
    (k : TagsKey) (ts : TimestampMs) (p : Point) → fits k ts p ≡ true → make_tags_key p.tags ≡ k
fits-key k ts p h = ground (arith, str_eqb_iff (make_tags_key p.tags) k)

pub fits-timestamp :
    (k : TagsKey) (ts : TimestampMs) (p : Point) → fits k ts p ≡ true → p.timestamp ≡ ts
fits-timestamp k ts p h = ground (arith, int_eq.same_iff p.timestamp ts)

fits_self : (p : Point) → fits (make_tags_key p.tags) p.timestamp p ≡ true
fits_self p = ground (
  arith,
  str_eqb_iff (make_tags_key p.tags) (make_tags_key p.tags),
  int_eq.same_iff p.timestamp p.timestamp,
)

-- The last point of a key and a time is one of the list, and fits.
pub record IsLast (k : TagsKey) (ts : TimestampMs) (q : Point) (ps : List Point) : Type 0 where
  pub member : Mem q ps
  pub key : make_tags_key q.tags ≡ k
  pub time : q.timestamp ≡ ts

pub last_point-IsLast :
    (k : TagsKey) (ts : TimestampMs) (q : Point) (ps : List Point)
    → last_point k ts ps ≡ some q
    → IsLast k ts q ps
last_point-IsLast k ts q [] h = cc
last_point-IsLast k ts q (p ∷ ps) h = elim (Option-cases (last_point k ts ps)) [
  | inr (r, later) ↦
      let i = last_point-IsLast k ts q ps (later ∙ (rw later at h)) in
      record { member = mem-cons.1 (Or.inr i.member); key = i.key; time = i.time }
  | inl none_later ↦ elim (Bool-cases (fits k ts p)) [
    | inl here ↦
        let e : p ≡ q = some_inj (rw (none_later, here) at h) in
        record {
          member = mem-cons.1 (Or.inl (sym e));
          key = ap (λ (x : Point). make_tags_key x.tags) (sym e) ∙ fits-key k ts p here;
          time = ap (λ (x : Point). x.timestamp) (sym e) ∙ fits-timestamp k ts p here;
        }
    | inr other ↦ absurd (none_given (rw (none_later, other) at h))
  ]
]
  where
    none_given : none ≢ some q
    none_given e = cc

-- Where there is no last point, none fits.
none-fits :
    (k : TagsKey) (ts : TimestampMs) (ps : List Point) (p : Point)
    → last_point k ts ps ≡ none
    → Mem p ps
    → fits k ts p ≡ false
none-fits k ts [] p h m = absurd (not-mem-nil m)
none-fits k ts (x ∷ ps) p h m = elim (Option-cases (last_point k ts ps)) [
  | inr (r, later) ↦ absurd (some_given r (rw later at h))
  | inl none_later ↦ elim (Bool-cases (fits k ts x)) [
    | inl here ↦ absurd (some_given x (rw (none_later, here) at h))
    | inr other ↦
        Or.elim (bool_set _ _) (mem-cons.0 m) (λ e. ap (fits k ts) e ∙ other)
          (λ n. none-fits k ts ps p none_later n)
  ]
]
  where
    some_given : (r : Point) → some r ≢ none
    some_given r e = cc

pub fits_of :
    (k : TagsKey) (ts : TimestampMs) (p : Point)
    → make_tags_key p.tags ≡ k
    → p.timestamp ≡ ts
    → fits k ts p ≡ true
fits_of k ts p a b =
    ground (arith, str_eqb_iff (make_tags_key p.tags) k, int_eq.same_iff p.timestamp ts)

pub last_point-Survives :
    (k : TagsKey) (ts : TimestampMs) (q : Point) (ps : List Point)
    → last_point k ts ps ≡ some q
    → Survives q ps
last_point-Survives k ts q [] h = cc
last_point-Survives k ts q (p ∷ ps) h = elim (Option-cases (last_point k ts ps)) [
  | inr (r, later) ↦ Or.inl (last_point-Survives k ts q ps (later ∙ (rw later at h)))
  | inl none_later ↦ elim (Bool-cases (fits k ts p)) [
    | inl here ↦
        let e : p ≡ q = some_inj (rw (none_later, here) at h) in
        Or.inr (
          e,
          λ x m same now. false≢true (
              sym (none-fits k ts ps x none_later m)
              ∙ fits_of k ts x
                  (ap make_tags_key same
                    ∙ ap (λ (y : Point). make_tags_key y.tags) (sym e)
                    ∙ fits-key k ts p here)
                  (now ∙ ap (λ (y : Point). y.timestamp) (sym e) ∙ fits-timestamp k ts p here)),
        )
    | inr other ↦ absurd (none_given (rw (none_later, other) at h))
  ]
]
  where
    none_given : none ≢ some q
    none_given e = cc

pub Survives-prop : (q : Point) (ps : List Point) → IsProp (Survives q ps)
Survives-prop q [] = hlevel
Survives-prop q (p ∷ ps) = ∨₁_prop

pub Survives-Mem : (q : Point) (ps : List Point) → Survives q ps → Mem q ps
Survives-Mem q [] s = elim s [ ]
Survives-Mem q (p ∷ ps) s =
    Or.elim Mem-prop s (λ later. mem-cons.1 (Or.inr (Survives-Mem q ps later)))
      (λ here. mem-cons.1 (Or.inl (sym here.0)))

option_point_set : IsSet (Option Point)
option_point_set = hlevel

pub Survives-last_point :
    (q : Point) (ps : List Point)
    → ((p : Point) → Mem p ps → make_tags_key p.tags ≡ make_tags_key q.tags → p.tags ≡ q.tags)
    → Survives q ps
    → last_point (make_tags_key q.tags) q.timestamp ps ≡ some q
Survives-last_point q [] apart s = elim s [ ]
Survives-last_point q (p ∷ ps) apart s =
    Or.elim (option_point_set _ _) s
      (λ later. rw (Survives-last_point q ps (λ x m. apart x (mem-cons.1 (Or.inr m))) later) refl)
      (λ here. elim (Option-cases (last_point (make_tags_key q.tags) q.timestamp ps)) [
        | inr (r, later) ↦
            let i = last_point-IsLast (make_tags_key q.tags) q.timestamp r ps later in
            absurd (here.1 r i.member (apart r (mem-cons.1 (Or.inr i.member)) i.key) i.time)
        | inl none_later ↦ rw none_later (rw here.0 (rw (fits_self q) refl))
      ])
