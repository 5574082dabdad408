-- ===== src/Write/Compare.antt =====
-- `make_cmp_key`, `make_ordered` and the expected points of the test `test_build_write_table` in
-- src/model/write/request.rs.
pub mod Ordered
pub mod Last
pub mod Found
pub mod Expected
pub mod Matches
mod Fixture
mod Tests
use Prim.Native.Nat.Ordering.{lt, eq, gt}
use horaedb_client_rs.Prelude.{
  ◌≡◌, ◌↔◌, refl, arith, List, [], ◌∷◌, ◌++◌, map, Str, str_ord, int_ord, SortKey, Ordering,
  compare_str, compare_ℤ,
}
use horaedb_client_rs.BTreeMap
use horaedb_client_rs.BTreeMap.{BTreeMap}
use horaedb_client_rs.HashMap.{HashMap, Arrangement}
use horaedb_client_rs.Value.{TimestampMs}
use horaedb_client_rs.Write.Point.{Point}
use horaedb_client_rs.Write.Request.{Request}
use horaedb_client_rs.Write.Key.{make_tags_key}

-- Tuples are compared by their first component, then by their second.
abbrev pub CmpKey : Type 0
CmpKey = Str × TimestampMs

abbrev pub then_with : Ordering → Ordering → Ordering
then_with lt r = lt
then_with eq r = r
then_with gt r = gt

module _ {A B : Type 0} (o : SortKey A) (p : SortKey B) where
  abbrev pub compare_pair : A × B → A × B → Ordering
  compare_pair (a, b) (c, d) = then_with (o.order a c) (p.order b d)

  pub compare_pair_trans :
      (x y z : A × B) → compare_pair x y ≡ lt → compare_pair y z ≡ lt → compare_pair x z ≡ lt
  compare_pair_trans (a, b) (c, d) (e, f) =
      ground (arith, o.order_trans a c e, o.eq_of_order a c, o.eq_of_order c e, p.order_trans b d f)

  pub compare_pair_self : (x : A × B) → compare_pair x x ≡ eq
  compare_pair_self (a, b) = rw (o.order_self a) (p.order_self b)

  pub eq_of_compare_pair : (x y : A × B) → compare_pair x y ≡ eq → x ≡ y
  eq_of_compare_pair (a, b) (c, d) = ground (arith, o.eq_of_order a c, p.eq_of_order b d)

  pub compare_pair_flip : (x y : A × B) → (compare_pair x y ≡ gt) ↔ (compare_pair y x ≡ lt)
  compare_pair_flip (a, b) (c, d) = ground (
    arith,
    o.order_flip a c,
    o.order_flip c a,
    o.eq_of_order a c,
    o.eq_of_order c a,
    o.order_self a,
    o.order_self c,
    p.order_flip b d,
  )

  abbrev pub pair_ord : SortKey (A × B)
  pair_ord = record {
    order = compare_pair;
    order_trans = compare_pair_trans;
    order_self = compare_pair_self;
    eq_of_order = eq_of_compare_pair;
    order_flip = compare_pair_flip;
  }

instance abbrev pub cmp_ord : SortKey CmpKey
cmp_ord = pair_ord str_ord int_ord

unfoldable pub make_cmp_key : Point → CmpKey
make_cmp_key point = (point.table ++ make_tags_key point.tags, point.timestamp)

-- `sort_by`, which is stable, as insertion: a point goes before the points that it is not above.
abbrev pub insert_point : Point → List Point → List Point
insert_point p [] = p ∷ []
insert_point p (q ∷ points) = elim (cmp_ord.order (make_cmp_key p) (make_cmp_key q)) [
  | lt ↦ p ∷ q ∷ points
  | eq ↦ p ∷ q ∷ points
  | gt ↦ q ∷ insert_point p points
]

unfoldable pub make_ordered : List Point → List Point
make_ordered [] = []
make_ordered (p ∷ points) = insert_point p (make_ordered points)

abbrev pub with_key : Point → CmpKey × Point
with_key point = (make_cmp_key point, point)

-- The loop that extends the map of expected points by each group.
abbrev pub extend_all : List (Str × List Point) → BTreeMap CmpKey Point → BTreeMap CmpKey Point
extend_all [] m = m
extend_all ((table, points) ∷ groups) m =
    extend_all groups (BTreeMap.collect (map with_key points) m)

unfoldable pub expected_points : Arrangement (Str × List Point) → Request → List Point
expected_points h req =
    map (λ (x : CmpKey × Point). x.1) (extend_all (h.arrange req.point_groups) [])
