-- ===== src/DbClient/RouteBased/Partition/Clean.antt =====
-- The parts of a clean request are clean.
use mathlib.Core.Option.{get_or}
use mathlib.Core.HLevel.{×_prop}
use horaedb_client_rs.Prelude.{
  All-prop, ◌≡◌, ◌≢◌, refl, subst, Option, none, some, List, [], ◌∷◌, All, Str, str_eq,
  Option-cases, inl, inr, some_inj,
}
use horaedb_client_rs.DbClient.RouteBased.Partition.{Groups, Parts, assign, partition}
use horaedb_client_rs.Endpoint.{Endpoint, endpoint_eq}
use horaedb_client_rs.HashMap
use horaedb_client_rs.HashMap.{Arrangement}
use horaedb_client_rs.HashMap.Entries.{
  All-insert, All-get, IsDistinct, IsDistinct-prop, insert-IsDistinct,
}
use horaedb_client_rs.Router.{Targets}
use horaedb_client_rs.Write.Point.{Point}
use horaedb_client_rs.Write.Request.{Request, default}
use horaedb_client_rs.Write.Whole.{GroupClean}
use horaedb_client_rs.Write.Whole.Builds.{GroupClean-prop, RequestClean}

-- A part whose groups are clean.
abbrev pub PartClean : Endpoint × Request → Type 0
PartClean (ep, req) = RequestClean req × IsDistinct req.point_groups

pub PartClean-prop : (x : Endpoint × Request) → IsProp (PartClean x)
PartClean-prop (ep, req) =
    ×_prop (All-prop GroupClean GroupClean-prop req.point_groups) (IsDistinct-prop req.point_groups)

assign-PartClean :
    (parts : Parts) (ep : Endpoint) (t : Str) (g : List Point)
    → GroupClean (t, g)
    → All PartClean parts
    → All PartClean (assign parts ep t g)
unfolding assign default
assign-PartClean parts ep t g c h =
    let held = (get_or (HashMap.get parts ep) default).point_groups in
    let kept = present (HashMap.get parts ep) refl in
    All-insert PartClean ep (record { point_groups = HashMap.insert t g held }) parts
      (All-insert GroupClean t g held c kept.0, insert-IsDistinct t g held kept.1) h
  where
    present :
        (o : Option Request)
        → HashMap.get parts ep ≡ o
        → RequestClean (get_or o default) × IsDistinct (get_or o default).point_groups
    present none e = (tt, tt)
    present (some req) e = All-get PartClean ep req parts h e

pub partition-PartClean :
    (groups : Groups) (eps : Targets) (tables : List Str) (parts after : Parts)
    (missing left : List Str)
    → All GroupClean groups
    → All PartClean parts
    → partition groups eps tables parts missing ≡ some (after, left)
    → All PartClean after
unfolding partition
partition-PartClean groups [] tables parts after missing left c h e =
    subst (λ (x : Parts × List Str). All PartClean x.0) (some_inj e) h
partition-PartClean groups (ep ∷ eps) [] parts after missing left c h e =
    subst (λ (x : Parts × List Str). All PartClean x.0) (some_inj e) h
partition-PartClean groups (none ∷ eps) (t ∷ ts) parts after missing left c h e =
    partition-PartClean groups eps ts parts after _ left c h e
partition-PartClean groups (some ep ∷ eps) (t ∷ ts) parts after missing left c h e =
    elim (Option-cases (HashMap.get groups t)) [
      | inl absent ↦ absurd (none_given (after, left) (rw absent at e))
      | inr (g, present) ↦
          partition-PartClean groups eps ts (assign parts ep t g) after missing left c
            (assign-PartClean parts ep t g (All-get GroupClean t g groups c present) h)
            (rw present at e)
    ]
  where
    none_given : (x : Parts × List Str) → none ≢ some x
    none_given x q = cc

-- The parts have distinct endpoints.
pub partition-IsDistinct :
    (groups : Groups) (eps : Targets) (tables : List Str) (parts after : Parts)
    (missing left : List Str)
    → IsDistinct parts
    → partition groups eps tables parts missing ≡ some (after, left)
    → IsDistinct after
unfolding partition assign
partition-IsDistinct groups [] tables parts after missing left h e =
    subst (λ (x : Parts × List Str). IsDistinct x.0) (some_inj e) h
partition-IsDistinct groups (ep ∷ eps) [] parts after missing left h e =
    subst (λ (x : Parts × List Str). IsDistinct x.0) (some_inj e) h
partition-IsDistinct groups (none ∷ eps) (t ∷ ts) parts after missing left h e =
    partition-IsDistinct groups eps ts parts after _ left h e
partition-IsDistinct groups (some ep ∷ eps) (t ∷ ts) parts after missing left h e =
    elim (Option-cases (HashMap.get groups t)) [
      | inl absent ↦ absurd (none_given (after, left) (rw absent at e))
      | inr (g, present) ↦
          partition-IsDistinct groups eps ts (assign parts ep t g) after missing left
            (insert-IsDistinct ep _ parts h) (rw present at e)
    ]
  where
    none_given : (x : Parts × List Str) → none ≢ some x
    none_given x q = cc
