-- ===== src/Write/Compare/Matches.antt =====
-- The assertion of the test `test_build_write_table`, for the points of any request.
use mathlib.Core.List.{mem-cons, mem-cons_self, Pairwise}
use mathlib.Core.Logic.Or
use horaedb_client_rs.Prelude.{
  ◌^◌, ◌≤◌, ◌≡◌, refl, ap, sym, ◌∙◌, some, List, [], ◌∷◌, map, Mem, All, Str, Option-cases, inl,
  inr, str_eq,
}
use horaedb_client_rs.BTreeMap
use horaedb_client_rs.BTreeMap.{BTreeMap}
use horaedb_client_rs.BTreeMap.Same.{none_given, sorted_ext}
use horaedb_client_rs.HashMap.{Arrangement}
use horaedb_client_rs.Write.Point.{Point}
use horaedb_client_rs.Write.Request.{default, add_points, of_table}
use horaedb_client_rs.Write.Series.Invariant.{PointClean, count_tags_of, count_fields_of}
use horaedb_client_rs.Write.Proto.{HashOrders, WriteTableRequestPb, build_requests}
use horaedb_client_rs.Write.Survive.{Survives-Mem}
use horaedb_client_rs.Write.Once.{Differ}
use horaedb_client_rs.Write.Whole.{recover_requests}
use horaedb_client_rs.Write.Whole.Requests.{IsDelivered, build_requests-refines}
use horaedb_client_rs.Write.Compare.{
  CmpKey, cmp_ord, make_cmp_key, make_ordered, with_key, extend_all, expected_points,
}
use horaedb_client_rs.Write.Compare.Ordered.{
  KeysDiffer, make_ordered-IsSorted, get-make_ordered, get-make_ordered_sound,
}
use horaedb_client_rs.Write.Compare.Found.{extend_all-IsSorted}
use horaedb_client_rs.Write.Compare.Expected.{
  CmpKeysApart, Mem-of_table, CmpKeysApart-KeysApart, groups, expected_of-Survives,
  Survives-of_expected,
}

-- The assertion.
pub record IsMatched (h : HashOrders) (h2 : Arrangement (Str × List Point)) (ps : List Point)
    : Type 0 where
  pub requests : List WriteTableRequestPb
  pub points : List Point
  pub built : build_requests h (add_points default ps) ≡ some requests
  pub recovered : recover_requests requests ≡ some points
  pub matches : make_ordered points ≡ expected_points h2 (add_points default ps)

Differ-KeysDiffer :
    (ps l : List Point)
    → CmpKeysApart ps
    → ((p : Point) → Mem p l → Mem p ps)
    → Pairwise Differ l
    → Pairwise KeysDiffer l
unfolding make_cmp_key
Differ-KeysDiffer ps [] apart m Pairwise.nil = Pairwise.nil
Differ-KeysDiffer ps (p ∷ l) apart m (Pairwise.cons h d) =
    Pairwise.cons
      (λ q n e.
        let (table, tags) =
          apart p q (m p mem-cons_self) (m q (mem-cons.1 (Or.inr n)))
            (ap (λ (x : CmpKey). x.0) e) in
        h q n table tags (ap (λ (x : CmpKey). x.1) e))
      (Differ-KeysDiffer ps l apart (λ q n. m q (mem-cons.1 (Or.inr n))) d)

values-with_key : (l : List Point) → map (λ (x : CmpKey × Point). x.1) (map with_key l) ≡ l
values-with_key [] = refl
values-with_key (p ∷ l) = ap (λ x. p ∷ x) (values-with_key l)

-- The assertion of the unit test, for the points of any request: for points whose columns are sorted and
-- in range, with at most 2^32 tags and 2^32 fields together, whose keys in the test tell their tables and
-- tags apart, building the request does not panic, its messages read back, and the recovered points,
-- ordered by their keys, are the points that the test expects: those that it collects from the request's
-- groups under their keys. This holds in whatever orders the hash maps are read.
-- Floats are compared as bit patterns, so a NaN is the same as itself, unlike in the `assert_eq!` of the
-- test.
pub recovered-IsMatched :
    (h : HashOrders) (h2 : Arrangement (Str × List Point)) (ps : List Point)
    → All PointClean ps
    → count_tags_of ps ≤ 2 ^ 32
    → count_fields_of ps ≤ 2 ^ 32
    → CmpKeysApart ps
    → IsMatched h h2 ps
unfolding expected_points
recovered-IsMatched h h2 ps clean a b apart = record {
  requests = sent.requests;
  points = sent.points;
  built = sent.built;
  recovered = sent.recovered;
  matches =
      sym (values-with_key (make_ordered sent.points))
      ∙ ap (map (λ (x : CmpKey × Point). x.1)) (
          sorted_ext (map with_key (make_ordered sent.points)) (extend_all (groups h2 ps apart) [])
            (make_ordered-IsSorted sent.points differ)
            (extend_all-IsSorted (groups h2 ps apart) [] tt) found_same);
}
  where
    sent : IsDelivered h ps
    sent = build_requests-refines h ps clean a b (CmpKeysApart-KeysApart ps apart)

    differ : Pairwise KeysDiffer sent.points
    differ =
        Differ-KeysDiffer ps sent.points apart
          (λ p m.
            Mem-of_table p p.table ps (Survives-Mem p (of_table p.table ps) ((sent.members p).0 m)))
          sent.differ

    found_same :
        (k : CmpKey)
        → BTreeMap.get (map with_key (make_ordered sent.points)) k
          ≡ BTreeMap.get (extend_all (groups h2 ps apart) []) k
    found_same k = elim (Option-cases (BTreeMap.get (map with_key (make_ordered sent.points)) k)) [
      | inr (q, found) ↦
          let (m, key) = get-make_ordered_sound q k sent.points found in
          found
          ∙ sym (expected_of-Survives h2 ps apart q ((sent.members q).0 m))
          ∙ ap (BTreeMap.get (extend_all (groups h2 ps apart) [])) key
      | inl absent ↦ elim (Option-cases (BTreeMap.get (extend_all (groups h2 ps apart) []) k)) [
        | inl absent2 ↦ absent ∙ sym absent2
        | inr (q, found) ↦
            let (s, key) = Survives-of_expected h2 ps apart k q found in
            absurd (
              none_given q (
                sym absent
                ∙ ap (BTreeMap.get (map with_key (make_ordered sent.points))) (sym key)
                ∙ get-make_ordered q sent.points differ ((sent.members q).1 s)))
      ]
    ]
