-- ===== src/Write/Request.antt =====
-- `Request` of src/model/write/request.rs: points grouped by table.
use horaedb_client_rs.Prelude.{
  ◌≡◌, ap, sym, ◌∙◌, Bool-cases, inl, inr, List, [], ◌∷◌, ◌++◌, arith, Str, ◌==◌, str_eq,
  str_eqb_iff, if◌then◌else◌,
}
use mathlib.Core.List.{append-nil, append_assoc}
use mathlib.Core.Option.{get_or}
use horaedb_client_rs.HashMap
use horaedb_client_rs.HashMap.{HashMap}
use horaedb_client_rs.HashMap.Laws.{get-insert}
use horaedb_client_rs.Write.Point.{Point}

pub record Request : Type 0 where
  pub point_groups : HashMap Str (List Point)

unfoldable pub default : Request
default = record { point_groups = [] }

-- `entry(table).or_default()`, then `push`.
unfoldable pub add_point : Request → Point → Request
add_point r p = record {
  point_groups =
      HashMap.insert p.table (get_or (HashMap.get r.point_groups p.table) [] ++ p ∷ [])
        r.point_groups;
}

unfoldable pub add_points : Request → List Point → Request
add_points r [] = r
add_points r (p ∷ ps) = add_points (add_point r p) ps

-- The points of a table, in the order of the list.
abbrev pub of_table : Str → List Point → List Point
of_table t [] = []
of_table t (p ∷ ps) = if p.table == t then p ∷ of_table t ps else of_table t ps

abbrev pub group : Request → Str → List Point
group r t = get_or (HashMap.get r.point_groups t) []

group-add_point :
    (r : Request) (p : Point) (t : Str)
    → group (add_point r p) t ≡ (if p.table == t then group r t ++ p ∷ [] else group r t)
unfolding add_point
group-add_point r p t =
    ground (
      arith,
      get-insert r.point_groups p.table t (group r p.table ++ p ∷ []),
      str_eqb_iff p.table t,
    )

-- Adding points appends to the group of each table exactly the points of that table, in the order
-- in which they were added.
pub group-add_points :
    (r : Request) (ps : List Point) (t : Str)
    → group (add_points r ps) t ≡ group r t ++ of_table t ps
unfolding add_points
group-add_points r [] t = sym (append-nil _)
group-add_points r (p ∷ ps) t = elim (Bool-cases (p.table == t)) [
  | inl same ↦
      group-add_points (add_point r p) ps t
      ∙ ap (λ g. g ++ of_table t ps) (group-add_point r p t)
      ∙ rw same (append_assoc (group r t) (p ∷ []) (of_table t ps))
  | inr other ↦
      group-add_points (add_point r p) ps t
      ∙ ap (λ g. g ++ of_table t ps) (group-add_point r p t)
      ∙ rw other
]
