-- ===== src/Write/Proto/RoundTrip.antt =====
-- A request read back gives the points of its series.
use mathlib.Core.List.{append_assoc}
use horaedb_client_rs.Prelude.{
  ◌>>=◌, ℕ, ◌+◌, ◌^◌, ◌≤◌, ◌≡◌, refl, ap, ◌∙◌, some, List, [], ◌∷◌, ◌++◌, arith, Str, All, length,
  get_elem?, get_elem?-append_left, str_ord,
}
use horaedb_client_rs.BTreeMap.{BTreeMap, IsSorted}
use horaedb_client_rs.BTreeMap.Laws.{collect-sorted}
use horaedb_client_rs.Value.{Value, TimestampMs, InRange}
use horaedb_client_rs.Value.Proto.{from_pb-to_pb}
use horaedb_client_rs.Write.Point.{Point, Columns}
use horaedb_client_rs.Write.NameDict
use horaedb_client_rs.Write.NameDict.{NameDict}
use horaedb_client_rs.Write.NameDict.Laws.{
  names_of, IsValid, Grows, Grows-refl, Grows-trans, Grows-wider, length-Grows, insert-Grows,
  insert-IsInserted,
}
use horaedb_client_rs.Write.Proto.{build_tags, build_ts_fields}
use horaedb_client_rs.Write.Proto.Recover.{recover_pairs, recover_columns, recover_groups}

-- Columns as a `BTreeMap<String, Value>` holds them.
abbrev pub IsClean : Columns → Type 0
IsClean c = IsSorted c × All (λ (e : Str × Value). InRange e.1) c

-- Names read under `d` are read under all that `d` grows into.
abbrev pub Prefix : NameDict → List Str → Type 0
Prefix d names = (later : List Str) × (names ≡ names_of d.dict ++ later)

pub Prefix-Grows :
    {d e : NameDict} {n : ℕ} {names : List Str} → Grows d e n → Prefix e names → Prefix d names
Prefix-Grows {d} g (later, e) = (
  g.added ++ later,
  e ∙ ap (λ l. l ++ later) g.grows ∙ append_assoc (names_of d.dict) g.added later,
)

pub build_tags-Grows : (d : NameDict) (c : Columns) → Grows d (build_tags d c).1 (length c)
unfolding build_tags
build_tags-Grows d [] = Grows-refl d
build_tags-Grows d ((name, val) ∷ c) =
    Grows-wider (Grows-trans (insert-Grows d name) (build_tags-Grows (NameDict.insert d name).1 c))
      (omega arith)

pub build_tags-IsValid :
    (d : NameDict) (c : Columns)
    → IsValid d
    → length (names_of d.dict) + length c ≤ 2 ^ 32
    → IsValid (build_tags d c).1
unfolding build_tags
build_tags-IsValid d [] v h = v
build_tags-IsValid d ((name, val) ∷ c) v h =
    let g = length-Grows (insert-Grows d name) in
    build_tags-IsValid (NameDict.insert d name).1 c (insert-IsInserted d name v (omega arith)).valid
      (omega arith)

pub recover_pairs-build_tags :
    (d : NameDict) (c : Columns) (names : List Str)
    → IsValid d
    → length (names_of d.dict) + length c ≤ 2 ^ 32
    → All (λ (e : Str × Value). InRange e.1) c
    → Prefix (build_tags d c).1 names
    → recover_pairs names (build_tags d c).0 ≡ some c
unfolding build_tags recover_pairs
recover_pairs-build_tags d [] names v h a p = refl
recover_pairs-build_tags d ((name, val) ∷ c) names v h a p =
    let d1 = (NameDict.insert d name).1 in
    let g = length-Grows (insert-Grows d name) in
    let i = insert-IsInserted d name v (omega arith) in
    let q = Prefix-Grows {d = d1} (build_tags-Grows d1 c) p in
    let here : get_elem? names (NameDict.insert d name).0 ≡ some name =
      ap (λ l. get_elem? l (NameDict.insert d name).0) q.1
      ∙ get_elem?-append_left (names_of d1.dict) q.0 _ name i.found in
    let rest = recover_pairs-build_tags d1 c names i.valid (omega arith) a.1 p in
    rw (here, recover_pairs)
      (rw (rest, ◌>>=◌) (ap (λ x. some ((name, x) ∷ c)) (from_pb-to_pb val a.0)))

pub recover_columns-build_tags :
    (d : NameDict) (c : Columns) (names : List Str)
    → IsValid d
    → length (names_of d.dict) + length c ≤ 2 ^ 32
    → IsClean c
    → Prefix (build_tags d c).1 names
    → recover_columns names (build_tags d c).0 ≡ some c
unfolding recover_columns
recover_columns-build_tags d c names v h k p =
    rw (recover_pairs-build_tags d c names v h k.1 p) (ap some (collect-sorted c k.0))

-- The fields of all times.
abbrev pub count_fields : BTreeMap TimestampMs Columns → ℕ
count_fields [] = 0
count_fields ((ts, c) ∷ m) = length c + count_fields m

abbrev pub AllClean : BTreeMap TimestampMs Columns → Type 0
AllClean [] = Unit
AllClean ((ts, c) ∷ m) = IsClean c × AllClean m

-- The points that a series stands for.
abbrev pub points_of : Str → Columns → BTreeMap TimestampMs Columns → List Point
points_of table tags [] = []
points_of table tags ((ts, c) ∷ m) =
    record { table = table; timestamp = ts; tags = tags; fields = c } ∷ points_of table tags m

pub build_ts_fields-Grows :
    (d : NameDict) (m : BTreeMap TimestampMs Columns)
    → Grows d (build_ts_fields d m).1 (count_fields m)
unfolding build_ts_fields
build_ts_fields-Grows d [] = Grows-refl d
build_ts_fields-Grows d ((ts, c) ∷ m) =
    Grows-trans (build_tags-Grows d c) (build_ts_fields-Grows (build_tags d c).1 m)

pub build_ts_fields-IsValid :
    (d : NameDict) (m : BTreeMap TimestampMs Columns)
    → IsValid d
    → length (names_of d.dict) + count_fields m ≤ 2 ^ 32
    → IsValid (build_ts_fields d m).1
unfolding build_ts_fields
build_ts_fields-IsValid d [] v h = v
build_ts_fields-IsValid d ((ts, c) ∷ m) v h =
    let g = length-Grows (build_tags-Grows d c) in
    build_ts_fields-IsValid (build_tags d c).1 m (build_tags-IsValid d c v (omega arith))
      (omega arith)

pub recover_groups-build_ts_fields :
    (table : Str) (tags : Columns) (d : NameDict) (m : BTreeMap TimestampMs Columns)
    (names : List Str)
    → IsValid d
    → length (names_of d.dict) + count_fields m ≤ 2 ^ 32
    → AllClean m
    → Prefix (build_ts_fields d m).1 names
    → recover_groups table tags names (build_ts_fields d m).0 ≡ some (points_of table tags m)
unfolding build_ts_fields recover_groups
recover_groups-build_ts_fields table tags d [] names v h a p = refl
recover_groups-build_ts_fields table tags d ((ts, c) ∷ m) names v h a p =
    let d1 = (build_tags d c).1 in
    let g = length-Grows (build_tags-Grows d c) in
    let v1 = build_tags-IsValid d c v (omega arith) in
    let here =
      recover_columns-build_tags d c names v (omega arith) a.0
        (Prefix-Grows {d = d1} (build_ts_fields-Grows d1 m) p) in
    let rest = recover_groups-build_ts_fields table tags d1 m names v1 (omega arith) a.1 p in
    rw (here, ◌>>=◌) (rw (rest, ◌>>=◌))
