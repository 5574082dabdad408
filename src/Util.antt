-- ===== src/Util.antt =====
-- src/util.rs: status codes of the server, and when a route is to be looked up again.
use horaedb_client_rs.Prelude.{ℕ, Bool, true, false, ◌&&◌, ◌||◌, [], ◌∷◌, Str, bytes, eqb}

pub data StatusCode : Type 0 where
  ok invalid_argument not_found too_many_requests internal_error : StatusCode

unfoldable pub as_u32 : StatusCode → ℕ
as_u32 StatusCode.ok = 200
as_u32 StatusCode.invalid_argument = 400
as_u32 StatusCode.not_found = 404
as_u32 StatusCode.too_many_requests = 429
as_u32 StatusCode.internal_error = 500

unfoldable pub is_ok : ℕ → Bool
unfolding as_u32
is_ok code = eqb code (as_u32 StatusCode.ok)

-- `str::contains` of the standard library, over bytes.
abbrev pub starts_with : Str → Str → Bool
starts_with [] s = true
starts_with (b ∷ p) [] = false
starts_with (b ∷ p) (c ∷ s) = eqb b c && starts_with p s

abbrev pub contains : Str → Str → Bool
contains p [] = starts_with p []
contains p (c ∷ s) = starts_with p (c ∷ s) || contains p s

unfoldable pub should_refresh : ℕ → Str → Bool
unfolding as_u32
should_refresh code msg =
    eqb code (as_u32 StatusCode.invalid_argument)
    && (contains (bytes "Table") msg && contains (bytes "not found") msg)
