-- ===== src/DbClient/RouteBased/Partition/Laws.antt =====
-- The split of a request loses and doubles nothing.
use mathlib.Core.Option.{get_or}
use mathlib.Core.Bool.{false≢true}
use mathlib.Core.List.{append-nil, append_assoc}
use horaedb_client_rs.Prelude.{
  ◌>>=◌, ◌≡◌, refl, ap, sym, ◌∙◌, Bool, true, false, ◌&&◌, ◌||◌, Option, none, some, List, [], ◌∷◌,
  ◌++◌, Str, str_eq, ◌==◌, str_eqb_iff, if◌then◌else◌, is_some, arith, Option-cases, inl, inr,
}
use horaedb_client_rs.Endpoint.{Endpoint, endpoint_eq, endpoint_eqb_iff}
use horaedb_client_rs.HashMap
use horaedb_client_rs.HashMap.{HashMap}
use horaedb_client_rs.HashMap.Laws.{get-insert}
use horaedb_client_rs.Write.Point.{Point}
use horaedb_client_rs.Write.Request.{Request, default}
use horaedb_client_rs.DbClient.RouteBased.Partition.{Groups, Parts, assign, partition}

-- The points that a part has for a table.
abbrev pub group_in : Parts → Endpoint → Str → Option (List Point)
group_in parts ep table = elim (HashMap.get parts ep) [
  | none ↦ none
  | some req ↦ HashMap.get req.point_groups table
]

get-or_default :
    (o : Option Request) (t : Str)
    → HashMap.get (get_or o default).point_groups t
      ≡ (elim o [ none ↦ none | some req ↦ HashMap.get req.point_groups t ])
unfolding default HashMap.get
get-or_default none t = refl
get-or_default (some req) t = refl

group_in-assign :
    (parts : Parts) (ep : Endpoint) (table : Str) (points : List Point) (e : Endpoint) (t : Str)
    → group_in (assign parts ep table points) e t
      ≡ (if (ep == e) && (table == t) then some points else group_in parts e t)
unfolding assign
group_in-assign parts ep table points e t = ground (
  arith,
  get-insert parts ep e (record {
    point_groups = HashMap.insert table points (get_or (HashMap.get parts ep) default).point_groups;
  }),
  get-insert (get_or (HashMap.get parts ep) default).point_groups table t points,
  get-or_default (HashMap.get parts ep) t,
  endpoint_eqb_iff ep e,
)

-- Whether a table is sent to an endpoint.
abbrev pub assigned : List (Option Endpoint) → List Str → Endpoint → Str → Bool
assigned [] tables e t = false
assigned (ep ∷ eps) [] e t = false
assigned (none ∷ eps) (table ∷ tables) e t = assigned eps tables e t
assigned (some ep ∷ eps) (table ∷ tables) e t =
    ((ep == e) && (table == t)) || assigned eps tables e t

abbrev pub unassigned : List (Option Endpoint) → List Str → List Str
unassigned [] tables = []
unassigned (ep ∷ eps) [] = []
unassigned (none ∷ eps) (table ∷ tables) = table ∷ unassigned eps tables
unassigned (some ep ∷ eps) (table ∷ tables) = unassigned eps tables

-- Every table that has an endpoint is in the request.
abbrev pub all_present : Groups → List (Option Endpoint) → List Str → Bool
all_present groups [] tables = true
all_present groups (ep ∷ eps) [] = true
all_present groups (none ∷ eps) (table ∷ tables) = all_present groups eps tables
all_present groups (some ep ∷ eps) (table ∷ tables) =
    is_some (HashMap.get groups table) && all_present groups eps tables

partition_from :
    (groups : Groups) (eps : List (Option Endpoint)) (tables : List Str) (parts : Parts)
    (missing : List Str)
    → all_present groups eps tables ≡ true
    → (result : Parts) × ((partition groups eps tables parts missing
          ≡ some (result, missing ++ unassigned eps tables))
        × ((e : Endpoint) (t : Str)
            → group_in result e t
              ≡ (if assigned eps tables e t then HashMap.get groups t else group_in parts e t)))
unfolding partition
partition_from groups [] tables parts missing h =
    (parts, (ap (λ l. some (parts, l)) (sym (append-nil missing)), λ e t. refl))
partition_from groups (ep ∷ eps) [] parts missing h =
    (parts, (ap (λ l. some (parts, l)) (sym (append-nil missing)), λ e t. refl))
partition_from groups (none ∷ eps) (table ∷ tables) parts missing h =
    let (result, (is, law)) = partition_from groups eps tables parts (missing ++ table ∷ []) h in
    (
      result,
      (
        is ∙ ap (λ l. some (result, l)) (append_assoc missing (table ∷ []) (unassigned eps tables)),
        law,
      ),
    )
partition_from groups (some ep ∷ eps) (table ∷ tables) parts missing h =
    elim (Option-cases (HashMap.get groups table)) [
      | inl absent ↦ absurd (false≢true (rw absent at h))
      | inr (points, present) ↦
          let tail : all_present groups eps tables ≡ true = rw present at h in
          let (result, (is, law)) =
            partition_from groups eps tables (assign parts ep table points) missing tail in
          (result, (step points present result is, λ e t. law e t ∙ moved points present e t))
    ]
  where
    step :
        (points : List Point)
        → HashMap.get groups table ≡ some points
        → (result : Parts)
        → partition groups eps tables (assign parts ep table points) missing
          ≡ some (result, missing ++ unassigned eps tables)
        → (HashMap.get groups table
            >>= (λ points. partition groups eps tables (assign parts ep table points) missing))
          ≡ some (result, missing ++ unassigned eps tables)
    step points present result is = rw present is

    moved :
        (points : List Point)
        → HashMap.get groups table ≡ some points
        → (e : Endpoint) (t : Str)
        → (if assigned eps tables e t
            then HashMap.get groups t
            else group_in (assign parts ep table points) e t)
          ≡ (if ((ep == e) && (table == t)) || assigned eps tables e t
              then HashMap.get groups t
              else group_in parts e t)
    moved points present e t =
        ground (arith, group_in-assign parts ep table points e t, str_eqb_iff table t, present)

-- Where every table with an endpoint is in the request, it is split without a panic: the part of an
-- endpoint has a table exactly if the table is sent there, with its whole group of points, and the
-- tables left over are those without an endpoint, in order.
pub partition-conserves :
    (groups : Groups) (eps : List (Option Endpoint)) (tables : List Str)
    → all_present groups eps tables ≡ true
    → (parts : Parts) × ((partition groups eps tables [] [] ≡ some (parts, unassigned eps tables))
        × ((e : Endpoint) (t : Str)
            → group_in parts e t
              ≡ (if assigned eps tables e t then HashMap.get groups t else none)))
unfolding HashMap.get
partition-conserves groups eps tables h = partition_from groups eps tables [] [] h
