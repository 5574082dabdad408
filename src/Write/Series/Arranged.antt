-- ===== src/Write/Series/Arranged.antt =====
-- The series in whatever order they are read: nothing of what grouping keeps depends on it.
use mathlib.Core.HLevel.{×_prop}
use mathlib.Core.List.{foldr, mem-cons, mem-cons_self, not-mem-nil}
use mathlib.Core.List.Perm
use mathlib.Core.Logic.Or
use native.Mathlib.Bridge.{le_prop}
use native.Mathlib.Nat.{ℕ_set}
use horaedb_client_rs.Prelude.{
  All-prop, ℕ, ◌+◌, ◌<◌, ◌≡◌, refl, ap, sym, ◌∙◌, [], ◌∷◌, Mem, All, Str, Ordering, int_ord,
  str_ord, SortKey, length, arith, subst,
}
use horaedb_client_rs.BTreeMap.{BTreeMap, IsSorted}
use horaedb_client_rs.HashMap.{Arrangement}
use horaedb_client_rs.HashMap.Entries.{weight}
use horaedb_client_rs.Value.{Value, InRange, TimestampMs}
use horaedb_client_rs.Write.Point.{Columns}
use horaedb_client_rs.Write.Key.{TagsKey}
use horaedb_client_rs.Write.Series.{SeriesEntry, SeriesMap, values}
use horaedb_client_rs.Write.Series.Invariant.{EntryClean}
use horaedb_client_rs.Write.Proto.RoundTrip.{IsClean, AllClean, count_fields}
use horaedb_client_rs.Write.Proto.Entries.{EntriesClean, count_all_tags, count_all_fields}

ordering_set : IsSet Ordering
ordering_set = hlevel

IsSorted-prop {ℓ κ} :
    {K : Type ℓ} {V : Type κ} ⦃o : SortKey K⦄ (m : BTreeMap K V) → IsProp (IsSorted m)
IsSorted-prop [] = hlevel
IsSorted-prop ⦃o⦄ ((k, v) ∷ m) =
    ×_prop (All-prop (λ e. o.order k e.0 ≡ Ordering.lt) (λ e. ordering_set _ _) m) (IsSorted-prop m)

InRange-prop : (v : Value) → IsProp (InRange v)
InRange-prop Value.null = hlevel
InRange-prop (Value.timestamp v) = ×_prop le_prop le_prop
InRange-prop (Value.double v) = le_prop
InRange-prop (Value.float v) = le_prop
InRange-prop (Value.varbinary v) = All-prop (λ b. b < 256) (λ b. le_prop) v
InRange-prop (Value.string v) = All-prop (λ b. b < 256) (λ b. le_prop) v
InRange-prop (Value.uint64 v) = le_prop
InRange-prop (Value.uint32 v) = le_prop
InRange-prop (Value.uint16 v) = le_prop
InRange-prop (Value.uint8 v) = le_prop
InRange-prop (Value.int64 v) = ×_prop le_prop le_prop
InRange-prop (Value.int32 v) = ×_prop le_prop le_prop
InRange-prop (Value.int16 v) = ×_prop le_prop le_prop
InRange-prop (Value.int8 v) = ×_prop le_prop le_prop
InRange-prop (Value.boolean v) = hlevel

pub IsClean-prop : (c : Columns) → IsProp (IsClean c)
IsClean-prop c =
    ×_prop (IsSorted-prop c) (All-prop (λ (e : Str × Value). InRange e.1) (λ e. InRange-prop e.1) c)

AllClean-prop : (m : BTreeMap TimestampMs Columns) → IsProp (AllClean m)
AllClean-prop [] = hlevel
AllClean-prop ((ts, c) ∷ m) = ×_prop (IsClean-prop c) (AllClean-prop m)

EntryClean-prop : (e : SeriesEntry) → IsProp (EntryClean e)
EntryClean-prop e =
    ×_prop (IsClean-prop e.tags) (×_prop (AllClean-prop e.ts_fields) (IsSorted-prop e.ts_fields))

pub Mem-EntryClean :
    (m : SeriesMap) (x : TagsKey × SeriesEntry)
    → All (λ y. EntryClean y.1) m
    → Mem x m
    → EntryClean x.1
Mem-EntryClean [] x h q = absurd (not-mem-nil q)
Mem-EntryClean (y ∷ m) x h q =
    Or.elim (EntryClean-prop x.1) (mem-cons.0 q)
      (λ e. subst (λ (z : TagsKey × SeriesEntry). EntryClean z.1) (sym e) h.0)
      (λ n. Mem-EntryClean m x h.1 n)

EntriesClean-values :
    (l : SeriesMap)
    → ((x : TagsKey × SeriesEntry) → Mem x l → EntryClean x.1)
    → EntriesClean (values l)
EntriesClean-values [] h = tt
EntriesClean-values ((k, e) ∷ l) h =
    let c = h (k, e) mem-cons_self in
    (c.0, c.1.0, EntriesClean-values l (λ x q. h x (mem-cons.1 (Or.inr q))))

pub values-EntriesClean :
    (h : Arrangement (TagsKey × SeriesEntry)) (m : SeriesMap)
    → All (λ y. EntryClean y.1) m
    → EntriesClean (values (h.arrange m))
values-EntriesClean h m c =
    EntriesClean-values (h.arrange m)
      (λ x q. Mem-EntryClean m x c ((Perm.mem_iff (h.arrange-perm m)).0 q))

-- A sum over the entries does not depend on their order.
weight-foldr :
    (w : SeriesEntry → ℕ) (m : SeriesMap)
    → weight w m ≡ foldr (λ (x : TagsKey × SeriesEntry) n. w x.1 + n) 0 m
weight-foldr w [] = refl
weight-foldr w ((k, e) ∷ m) = ap (λ n. w e + n) (weight-foldr w m)

weight-arrange :
    (w : SeriesEntry → ℕ) (h : Arrangement (TagsKey × SeriesEntry)) (m : SeriesMap)
    → weight w (h.arrange m) ≡ weight w m
weight-arrange w h m =
    weight-foldr w (h.arrange m)
    ∙ Perm.foldr-eq ℕ_set (λ (x : TagsKey × SeriesEntry) n. w x.1 + n) (λ a b n. omega arith)
        (h.arrange-perm m) 0
    ∙ sym (weight-foldr w m)

count_all_tags-values : (m : SeriesMap) → count_all_tags (values m) ≡ weight (λ e. length e.tags) m
count_all_tags-values [] = refl
count_all_tags-values ((k, e) ∷ m) = ap (λ n. length e.tags + n) (count_all_tags-values m)

count_all_fields-values :
    (m : SeriesMap) → count_all_fields (values m) ≡ weight (λ e. count_fields e.ts_fields) m
count_all_fields-values [] = refl
count_all_fields-values ((k, e) ∷ m) =
    ap (λ n. count_fields e.ts_fields + n) (count_all_fields-values m)

pub count_all_tags-arrange :
    (h : Arrangement (TagsKey × SeriesEntry)) (m : SeriesMap)
    → count_all_tags (values (h.arrange m)) ≡ weight (λ e. length e.tags) m
count_all_tags-arrange h m =
    count_all_tags-values (h.arrange m) ∙ weight-arrange (λ e. length e.tags) h m

pub count_all_fields-arrange :
    (h : Arrangement (TagsKey × SeriesEntry)) (m : SeriesMap)
    → count_all_fields (values (h.arrange m)) ≡ weight (λ e. count_fields e.ts_fields) m
count_all_fields-arrange h m =
    count_all_fields-values (h.arrange m) ∙ weight-arrange (λ e. count_fields e.ts_fields) h m
