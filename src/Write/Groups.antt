-- ===== src/Write/Groups.antt =====
-- The groups of a request that points were added to: of each table once, with the points of that table.
use mathlib.Core.List.{mem-cons, mem-cons_self, Mem-prop, not-mem-nil}
use mathlib.Core.Option.{get_or}
use mathlib.Core.Logic.Or
use mathlib.Core.Logic.{◌∨₁◌, ∨₁_prop}
use mathlib.Core.HLevel.{×_prop}
use horaedb_client_rs.Prelude.{
  ◌≤◌, ◌≡◌, ◌≢◌, ap, sym, subst, ◌∙◌, Bool-cases, Option-cases, Option, some, List, [], ◌∷◌, Mem,
  All, All-Mem, Str, str_eq, str_eqb_iff, ◌==◌, inl, inr, arith,
}
use horaedb_client_rs.HashMap
use horaedb_client_rs.HashMap.{HashMap}
use horaedb_client_rs.HashMap.Entries
use horaedb_client_rs.HashMap.Entries.{IsDistinct, insert-IsDistinct}
use horaedb_client_rs.Write.Point.{Point}
use horaedb_client_rs.Write.Request.{
  Request, default, add_point, add_points, of_table, group, group-add_points,
}
use horaedb_client_rs.Write.Series.Invariant.{count_tags_of, count_fields_of}
use horaedb_client_rs.Write.Survive.{Survives, Survives-prop, Survives-Mem}

add_points-IsDistinct :
    (r : Request) (ps : List Point)
    → IsDistinct r.point_groups
    → IsDistinct (add_points r ps).point_groups
unfolding add_point add_points
add_points-IsDistinct r [] d = d
add_points-IsDistinct r (p ∷ ps) d =
    add_points-IsDistinct (add_point r p) ps (insert-IsDistinct p.table _ r.point_groups d)

-- No table has two groups.
pub groups-IsDistinct : (ps : List Point) → IsDistinct (add_points default ps).point_groups
unfolding default
groups-IsDistinct ps = add_points-IsDistinct default ps tt

pub Points-option_set : IsSet (Option (List Point))
Points-option_set = hlevel

Str-set : IsSet Str
Str-set = hlevel

group-default : (ps : List Point) (t : Str) → group (add_points default ps) t ≡ of_table t ps
unfolding default HashMap.get
group-default ps t = group-add_points default ps t

-- Each group holds the points of its table.
pub group-Mem :
    (ps : List Point) (t : Str) (g : List Point)
    → Mem (t, g) (add_points default ps).point_groups
    → g ≡ of_table t ps
unfolding default
group-Mem ps t g m =
    ap (λ o. get_or o [])
      (sym (
        Entries.get-Mem Points-option_set (add_points default ps).point_groups t g
          (add_points-IsDistinct default ps tt) m))
    ∙ group-default ps t

-- A table that points were added for has a group.
pub group-get :
    (ps : List Point) (t : Str)
    → of_table t ps ≢ []
    → HashMap.get (add_points default ps).point_groups t ≡ some (of_table t ps)
group-get ps t h = elim (Option-cases (HashMap.get (add_points default ps).point_groups t)) [
  | inl absent ↦ absurd (h (sym (rw absent at (group-default ps t))))
  | inr (g, present) ↦ present ∙ ap some (rw present at (group-default ps t))
]

pub Mem-group :
    (ps : List Point) (t : Str)
    → of_table t ps ≢ []
    → Mem (t, of_table t ps) (add_points default ps).point_groups
Mem-group ps t h =
    Entries.Mem-get (add_points default ps).point_groups t (of_table t ps) (group-get ps t h)

pub of_table-All : (t : Str) (ps : List Point) → All (λ p. p.table ≡ t) (of_table t ps)
of_table-All t [] = tt
of_table-All t (p ∷ ps) = elim (Bool-cases (p.table == t)) [
  | inl same ↦ rw same ((str_eqb_iff p.table t).0 same, of_table-All t ps)
  | inr other ↦ rw other (of_table-All t ps)
]

-- What holds of all points holds of those of a table.
pub All-of_table {κ} :
    (P : Point → Type κ) (t : Str) (ps : List Point) → All P ps → All P (of_table t ps)
All-of_table P t [] h = tt
All-of_table P t (p ∷ ps) h = elim (Bool-cases (p.table == t)) [
  | inl same ↦ rw same (h.0, All-of_table P t ps h.1)
  | inr other ↦ rw other (All-of_table P t ps h.1)
]

pub count_tags_of-of_table :
    (t : Str) (ps : List Point) → count_tags_of (of_table t ps) ≤ count_tags_of ps
count_tags_of-of_table t [] = omega arith
count_tags_of-of_table t (p ∷ ps) = elim (Bool-cases (p.table == t)) [
  | inl same ↦ rw same (omega (arith, count_tags_of-of_table t ps))
  | inr other ↦ rw other (omega (arith, count_tags_of-of_table t ps))
]

pub count_fields_of-of_table :
    (t : Str) (ps : List Point) → count_fields_of (of_table t ps) ≤ count_fields_of ps
count_fields_of-of_table t [] = omega arith
count_fields_of-of_table t (p ∷ ps) = elim (Bool-cases (p.table == t)) [
  | inl same ↦ rw same (omega (arith, count_fields_of-of_table t ps))
  | inr other ↦ rw other (omega (arith, count_fields_of-of_table t ps))
]

-- A point that no later one of its group overwrites, in some group of a list.
abbrev pub Within : Point → List (Str × List Point) → Type 0
Within q [] = ⊥
Within q ((t, g) ∷ l) = Survives q g ∨₁ Within q l

Within-prop : (q : Point) (l : List (Str × List Point)) → IsProp (Within q l)
Within-prop q [] = hlevel
Within-prop q ((t, g) ∷ l) = ∨₁_prop

pub Mem-Within :
    (q : Point) (t : Str) (g : List Point) (l : List (Str × List Point))
    → Mem (t, g) l
    → Survives q g
    → Within q l
Mem-Within q t g [] m s = absurd (not-mem-nil m)
Mem-Within q t g ((u, f) ∷ l) m s =
    Or.elim ∨₁_prop (mem-cons.0 m)
      (λ e. Or.inl (subst (λ (x : Str × List Point). Survives q x.1) e s))
      (λ n. Or.inr (Mem-Within q t g l n s))

-- Of groups that hold the points of their tables: a point that survives in its group survives in the points
-- of its table, whose group it is.
pub Within-Survives :
    (ps : List Point) (q : Point) (l : List (Str × List Point))
    → ((t : Str) (g : List Point) → Mem (t, g) l → g ≡ of_table t ps)
    → Within q l
    → Survives q (of_table q.table ps) × Mem (q.table, of_table q.table ps) l
Within-Survives ps q [] h w = elim w [ ]
Within-Survives ps q ((t, g) ∷ l) h w =
    Or.elim (×_prop (Survives-prop q (of_table q.table ps)) Mem-prop) w
      (λ s.
        let there = subst (Survives q) (h t g mem-cons_self) s in
        let table =
          All-Mem (λ p. p.table ≡ t) q (of_table t ps) (Str-set _ _) (of_table-All t ps)
            (Survives-Mem q (of_table t ps) there) in
        (
          subst (λ x. Survives q (of_table x ps)) (sym table) there,
          subst (λ x. Mem (x, of_table x ps) ((t, g) ∷ l)) (sym table)
              (subst (λ x. Mem (t, x) ((t, g) ∷ l)) (h t g mem-cons_self) mem-cons_self),
        ))
      (λ n.
        let later = Within-Survives ps q l (λ u f m. h u f (mem-cons.1 (Or.inr m))) n in
        (later.0, mem-cons.1 (Or.inr later.1)))
