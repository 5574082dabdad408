-- ===== src/Write/NameDict.antt =====
-- `NameDict` of src/model/write/request.rs: names numbered in the order of their first use.
pub mod Laws
pub mod Ordered
use horaedb_client_rs.Prelude.{
  ℕ, zero, suc, ◌+◌, ◌%◌, ◌^◌, ◌≤◌, ◌<◌, ◌≡◌, refl, ap, sym, ◌∙◌, Option, none, some, List, [], ◌∷◌,
  ◌++◌, map, arith, Str, ◌==◌, str_eq, str_eqb_iff, length, set, replicate, ltb, if◌then◌else◌,
  get_elem?,
}
use horaedb_client_rs.HashMap
use horaedb_client_rs.HashMap.{HashMap, Arrangement}

pub record NameDict : Type 0 where
  pub dict : HashMap Str ℕ
  pub name_idx : ℕ

unfoldable pub new : NameDict
new = record { dict = []; name_idx = 0 }

-- `or_insert_with`: the number of a name that is there, or the next number, a `u32`.
abbrev insert_found : NameDict → Str → Option ℕ → ℕ × NameDict
insert_found d name (some idx) = (idx, d)
insert_found d name none = (
  d.name_idx,
  record { dict = HashMap.insert name d.name_idx d.dict; name_idx = (d.name_idx + 1) % 2 ^ 32 },
)

unfoldable pub insert : NameDict → Str → ℕ × NameDict
insert d name = insert_found d name (HashMap.get d.dict name)

-- `ordered[idx as usize] = name` for each entry; `none` is the panic of an index out of bounds.
unfoldable pub place : List (Str × ℕ) → List Str → Option (List Str)
place [] ordered = some ordered
place ((name, idx) ∷ rest) ordered =
    if ltb idx (length ordered) then place rest (set ordered idx name) else none

-- The map is read in any order.
unfoldable pub convert_ordered : Arrangement (Str × ℕ) → NameDict → Option (List Str)
unfolding place
convert_ordered h d = place (h.arrange d.dict) (replicate (length d.dict) [])
