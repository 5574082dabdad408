-- ===== src/Write/Whole/Requests/Tests.antt =====
-- A request of two points of one time, of which the later one stays.
use horaedb_client_rs.Prelude.{bytes, ◌≡◌, refl, List, [], ◌∷◌, All, arith, pos, ℕ, ◌<◌}
use horaedb_client_rs.BTreeMap
use horaedb_client_rs.Write.Point
use horaedb_client_rs.Write.Point.{is_reserved_column_name, ok}
use horaedb_client_rs.Write.Point.Laws.{Call, run, step}
use horaedb_client_rs.Write.Point.Clean.{run-PointClean}
use horaedb_client_rs.HashMap.{in_order}
use horaedb_client_rs.Value.{string, int32}
use horaedb_client_rs.Write.Point.{Point}
use horaedb_client_rs.Write.Request.{of_table}
use horaedb_client_rs.Write.Series.Invariant.{PointClean}
use horaedb_client_rs.Write.Groups.{All-of_table}
use horaedb_client_rs.Write.Proto.{HashOrders}
use horaedb_client_rs.Write.Whole.Requests.{
  IsDelivered, build_requests-refines, one_series-KeysApart,
}

abbrev pub early : Point
early = record {
  table = bytes "t";
  timestamp = pos 7;
  tags = (bytes "host", string (bytes "a")) ∷ [];
  fields = (bytes "cpu", int32 (pos 1)) ∷ [];
}

abbrev late : Point
late = record early { fields = (bytes "cpu", int32 (pos 2)) ∷ [] }

abbrev elsewhere : Point
elsewhere = record early { table = bytes "u" }

abbrev pub orders : HashOrders
orders = record { tables = in_order; series = in_order; names = in_order }

abbrev pub sent : List Point
sent = early ∷ late ∷ elsewhere ∷ []

abbrev calls : ℕ → List Call
calls n =
    Call.timestamp (pos 7)
    ∷ Call.tag (bytes "host") (string (bytes "a"))
    ∷ Call.field (bytes "cpu") (int32 (pos n))
    ∷ []

run-PointClean_at_sample : PointClean late
unfolding Point.build run Point.new Point.set_timestamp Point.tag Point.field BTreeMap.insert
    is_reserved_column_name step
run-PointClean_at_sample =
    run-PointClean (bytes "t") (calls 2) late
      (tt, ((omega arith, tt), ((omega arith, omega arith), tt))) refl

pub sent-PointClean : All PointClean sent
sent-PointClean = ((clean 1 (omega arith), (clean 2 (omega arith), (clean 1 (omega arith), tt))))
  where
    clean :
        (n : ℕ) → n < 16 → PointClean (record early { fields = (bytes "cpu", int32 (pos n)) ∷ [] })
    clean n h = (((tt, tt), ((omega arith, tt), tt)), ((tt, tt), ((omega arith, omega arith), tt)))

build_requests-refines_example : IsDelivered orders sent
build_requests-refines_example =
    build_requests-refines orders sent sent-PointClean (omega arith) (omega arith) (λ t.
      one_series-KeysApart early.tags (of_table t sent)
        (All-of_table (λ p. p.tags ≡ early.tags) t sent (refl, (refl, (refl, tt)))))
