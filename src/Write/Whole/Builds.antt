-- ===== src/Write/Whole/Builds.antt =====
-- Building a request of clean groups never panics.
use mathlib.Core.HLevel.{×_prop}
use mathlib.Core.Bool.{false≢true}
use mathlib.Core.List.Perm
use native.Mathlib.Bridge.{le_prop}
use horaedb_client_rs.Prelude.{
  All-prop, ◌≡◌, ◌≢◌, refl, true, none, some, List, [], ◌∷◌, All, All-Mem, All-of_each, Str,
  is_some, Option-cases, inl, inr,
}
use horaedb_client_rs.HashMap.{Arrangement}
use horaedb_client_rs.Write.Point.{Point}
use horaedb_client_rs.Write.Request.{Request}
use horaedb_client_rs.Write.Series.{TableRequestPbBuilder, values}
use horaedb_client_rs.Write.Series.Invariant.{PointClean}
use horaedb_client_rs.Write.Series.Arranged.{IsClean-prop}
use horaedb_client_rs.Write.Proto.{HashOrders, build, build_tables, build_requests}
use horaedb_client_rs.Write.Whole.{GroupClean, new-recovers}

Str-set : IsSet Str
Str-set = hlevel

pub GroupClean-prop : (x : Str × List Point) → IsProp (GroupClean x)
GroupClean-prop (t, ps) = ×_prop (All-prop (λ (p : Point). p.table ≡ t) (λ p. Str-set _ _) ps) (
    ×_prop (All-prop PointClean (λ p. ×_prop (IsClean-prop p.tags) (IsClean-prop p.fields)) ps)
      (×_prop le_prop le_prop))

-- A request whose groups are clean.
abbrev pub RequestClean : Request → Type 0
RequestClean req = All GroupClean req.point_groups

build_tables-some :
    (h : HashOrders) (l : List (Str × List Point))
    → All GroupClean l
    → is_some (build_tables h l) ≡ true
unfolding build_tables
build_tables-some h [] c = refl
build_tables-some h ((t, g) ∷ l) c =
    let (r, (grouped, (made, read))) = new-recovers h t g c.0 in
    let b : TableRequestPbBuilder = record {
      table = t;
      series_entries = values (h.series.arrange r);
    } in
    elim (Option-cases (build h.names b)) [
      | inl failed ↦ absurd (none_given _ (rw failed at read))
      | inr (req, is_built) ↦ elim (Option-cases (build_tables h l)) [
        | inl stopped ↦ absurd (false≢true (rw stopped at (build_tables-some h l c.1)))
        | inr (rest, is_rest) ↦ rw made (rw is_built (rw is_rest refl))
      ]
    ]
  where
    none_given : (l : List Point) → none ≢ some l
    none_given l e = cc

pub arrange-All {κ} :
    {A : Type 0} (P : A → Type κ)
    → ((a : A) → IsProp (P a))
    → (h : Arrangement A) (l : List A) → All P l
    → All P (h.arrange l)
arrange-All P p h l a =
    All-of_each P (h.arrange l)
      (λ x m. All-Mem P x l (p x) a ((Perm.mem_iff (h.arrange-perm l)).0 m))

pub build_requests-some :
    (h : HashOrders) (req : Request) → RequestClean req → is_some (build_requests h req) ≡ true
unfolding build_requests
build_requests-some h req c =
    build_tables-some h (h.tables.arrange req.point_groups)
      (arrange-All GroupClean GroupClean-prop h.tables req.point_groups c)
