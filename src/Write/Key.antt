-- ===== src/Write/Key.antt =====
-- `make_tags_key` of src/model/write/request.rs: the key by which points are put into series.
use mathlib.Core.List.{append_assoc}
use horaedb_client_rs.Prelude.{
  ◌≡◌, ◌≢◌, ℕ, arith, length, length-append, refl, ap, [], ◌∷◌, ◌++◌, Str,
}
use horaedb_client_rs.Value.{string}
use horaedb_client_rs.Value.Bytes.{to_bytes}
use horaedb_client_rs.Write.Point.{Columns}

abbrev pub TagsKey : Type 0
TagsKey = Str

unfoldable pub make_tags_key : Columns → TagsKey
make_tags_key [] = []
make_tags_key ((name, val) ∷ tags) = name ++ (to_bytes val ++ make_tags_key tags)

abbrev first_name : Columns → Str
first_name [] = []
first_name ((name, val) ∷ tags) = name

append-eq_self : (s t : Str) → s ++ t ≡ s → t ≡ []
append-eq_self s [] e = refl
append-eq_self s (c ∷ t) e = absurd (omega (arith, ap (length {A = ℕ}) e, length-append s (c ∷ t)))

-- The key does not tell a name from the value that follows: moving bytes from the end of a name to
-- the front of its text value gives other tags with the same key.
pub make_tags_key_collides :
    (name moved text : Str) (rest : Columns)
    → moved ≢ []
    → (make_tags_key ((name ++ moved, string text) ∷ rest)
        ≡ make_tags_key ((name, string (moved ++ text)) ∷ rest))
      × (◌≢◌ {A = Columns}
          ((name ++ moved, string text) ∷ rest)
          ((name, string (moved ++ text)) ∷ rest))
unfolding make_tags_key to_bytes
make_tags_key_collides name moved text rest h =
    (simp append_assoc, λ e. h (append-eq_self name moved (ap first_name e)))
