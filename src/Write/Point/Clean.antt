-- ===== src/Write/Point/Clean.antt =====
-- The columns of a built point: sorted by name, and in range if the values given were.
use horaedb_client_rs.Prelude.{◌≡◌, sym, subst, List, [], ◌∷◌, All, Str, str_ord}
use horaedb_client_rs.BTreeMap
use horaedb_client_rs.BTreeMap.{IsSorted}
use horaedb_client_rs.BTreeMap.Laws.{All-insert, insert-IsSorted}
use horaedb_client_rs.Value.{Value, InRange}
use horaedb_client_rs.Write.Point.{
  Point, PointBuilder, Columns, ok, new, build, set_table, set_timestamp, tag, field,
}
use horaedb_client_rs.Write.Point.Laws.{Call, step, run, build-IsBuilt}
use horaedb_client_rs.Write.Proto.RoundTrip.{IsClean}
use horaedb_client_rs.Write.Series.Invariant.{PointClean}

-- A call gives a value that its Rust type holds.
abbrev pub GivesInRange : Call → Type 0
GivesInRange (Call.tag k v) = InRange v
GivesInRange (Call.field k v) = InRange v
GivesInRange (Call.table t) = Unit
GivesInRange (Call.timestamp t) = Unit

abbrev BuilderClean : PointBuilder → Type 0
BuilderClean b = IsClean b.tags × IsClean b.fields

insert-IsClean :
    (k : Str) (v : Value) (c : Columns) → InRange v → IsClean c → IsClean (BTreeMap.insert k v c)
insert-IsClean k v c i h =
    (insert-IsSorted k v c h.0, All-insert (λ (e : Str × Value). InRange e.1) k v c i h.1)

step-BuilderClean :
    (b : PointBuilder) (c : Call) → GivesInRange c → BuilderClean b → BuilderClean (step b c)
unfolding step set_table set_timestamp tag field
step-BuilderClean b (Call.table t) i h = h
step-BuilderClean b (Call.timestamp t) i h = h
step-BuilderClean b (Call.tag k v) i h = (insert-IsClean k v b.tags i h.0, h.1)
step-BuilderClean b (Call.field k v) i h = (h.0, insert-IsClean k v b.fields i h.1)

run-BuilderClean :
    (b : PointBuilder) (cs : List Call)
    → All GivesInRange cs
    → BuilderClean b
    → BuilderClean (run b cs)
unfolding run
run-BuilderClean b [] i h = h
run-BuilderClean b (c ∷ cs) i h = run-BuilderClean (step b c) cs i.1 (step-BuilderClean b c i.0 h)

build-PointClean : (b : PointBuilder) (p : Point) → build b ≡ ok p → BuilderClean b → PointClean p
build-PointClean b p e h =
    let i = build-IsBuilt b p e in
    (subst IsClean (sym i.tags) h.0, subst IsClean (sym i.fields) h.1)

-- A point that a chain of setters with values in range builds has its tags and its fields in ascending
-- order of names, each name once, and all values in range.
pub run-PointClean :
    (t : Str) (cs : List Call) (p : Point)
    → All GivesInRange cs
    → build (run (new t) cs) ≡ ok p
    → PointClean p
unfolding new
run-PointClean t cs p i e =
    build-PointClean (run (new t) cs) p e (run-BuilderClean (new t) cs i (((tt, tt)), (tt, tt)))
