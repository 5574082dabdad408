-- ===== src/Prelude/Text.antt =====
-- Texts that the source writes out, as bytes.
use Prim.Native.Char.{code}
use Prim.Native.String.{String}
use mathlib.Core.List.{[], ◌∷◌}
use horaedb_client_rs.Prelude.Order.{Str}

abbrev pub bytes : String → Str
bytes String.[] = []
bytes (String.◌∷◌ c rest) = code c ∷ bytes rest
