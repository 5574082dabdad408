-- ===== src/Value/Cast.antt =====
-- The `as_*` methods of `Value` (src/model/value.rs) that return integers, binaries and texts. A Rust
-- cast `as` between integers keeps the low bits: `to_signed`, `to_unsigned`.
use horaedb_client_rs.Prelude.{
  ℕ, suc, ◌+◌, ◌^◌, ◌≡◌, Bool, true, false, Option, none, some, List, arith, ℤ, pos, negsuc, Str,
  InSigned, to_signed, to_unsigned, if◌then◌else◌,
}
use horaedb_client_rs.Value.{Value, InRange}

-- `*v as i8` and the like of a Boolean.
abbrev pub bit : Bool → ℕ
bit b = if b then 1 else 0

unfoldable pub as_i8 : Value → Option ℤ
as_i8 (Value.boolean v) = some (pos (bit v))
as_i8 (Value.int8 v) = some v
as_i8 _ = none

unfoldable pub as_u8 : Value → Option ℕ
as_u8 (Value.boolean v) = some (bit v)
as_u8 (Value.int8 v) = some (to_unsigned (2 ^ 8) v)
as_u8 (Value.uint8 v) = some v
as_u8 _ = none

unfoldable pub as_i16 : Value → Option ℤ
as_i16 (Value.boolean v) = some (pos (bit v))
as_i16 (Value.int8 v) = some (to_signed (2 ^ 16) v)
as_i16 (Value.uint8 v) = some (to_signed (2 ^ 16) (pos v))
as_i16 (Value.int16 v) = some v
as_i16 _ = none

unfoldable pub as_u16 : Value → Option ℕ
as_u16 (Value.boolean v) = some (bit v)
as_u16 (Value.int8 v) = some (to_unsigned (2 ^ 16) v)
as_u16 (Value.uint8 v) = some (to_unsigned (2 ^ 16) (pos v))
as_u16 (Value.int16 v) = some (to_unsigned (2 ^ 16) v)
as_u16 (Value.uint16 v) = some v
as_u16 _ = none

unfoldable pub as_i32 : Value → Option ℤ
as_i32 (Value.boolean v) = some (pos (bit v))
as_i32 (Value.int8 v) = some (to_signed (2 ^ 32) v)
as_i32 (Value.uint8 v) = some (to_signed (2 ^ 32) (pos v))
as_i32 (Value.int16 v) = some (to_signed (2 ^ 32) v)
as_i32 (Value.uint16 v) = some (to_signed (2 ^ 32) (pos v))
as_i32 (Value.int32 v) = some v
as_i32 _ = none

unfoldable pub as_u32 : Value → Option ℕ
as_u32 (Value.boolean v) = some (bit v)
as_u32 (Value.int8 v) = some (to_unsigned (2 ^ 32) v)
as_u32 (Value.uint8 v) = some (to_unsigned (2 ^ 32) (pos v))
as_u32 (Value.int16 v) = some (to_unsigned (2 ^ 32) v)
as_u32 (Value.uint16 v) = some (to_unsigned (2 ^ 32) (pos v))
as_u32 (Value.int32 v) = some (to_unsigned (2 ^ 32) v)
as_u32 (Value.uint32 v) = some v
as_u32 _ = none

unfoldable pub as_i64 : Value → Option ℤ
as_i64 (Value.boolean v) = some (pos (bit v))
as_i64 (Value.int8 v) = some (to_signed (2 ^ 64) v)
as_i64 (Value.uint8 v) = some (to_signed (2 ^ 64) (pos v))
as_i64 (Value.int16 v) = some (to_signed (2 ^ 64) v)
as_i64 (Value.uint16 v) = some (to_signed (2 ^ 64) (pos v))
as_i64 (Value.int32 v) = some (to_signed (2 ^ 64) v)
as_i64 (Value.uint32 v) = some (to_signed (2 ^ 64) (pos v))
as_i64 (Value.int64 v) = some v
as_i64 _ = none

unfoldable pub as_u64 : Value → Option ℕ
as_u64 (Value.boolean v) = some (bit v)
as_u64 (Value.int8 v) = some (to_unsigned (2 ^ 64) v)
as_u64 (Value.uint8 v) = some (to_unsigned (2 ^ 64) (pos v))
as_u64 (Value.int16 v) = some (to_unsigned (2 ^ 64) v)
as_u64 (Value.uint16 v) = some (to_unsigned (2 ^ 64) (pos v))
as_u64 (Value.int32 v) = some (to_unsigned (2 ^ 64) v)
as_u64 (Value.uint32 v) = some (to_unsigned (2 ^ 64) (pos v))
as_u64 (Value.int64 v) = some (to_unsigned (2 ^ 64) v)
as_u64 (Value.uint64 v) = some v
as_u64 _ = none

unfoldable pub as_varbinary : Value → Option (List ℕ)
as_varbinary (Value.varbinary v) = some v
as_varbinary _ = none

unfoldable pub as_str : Value → Option Str
as_str (Value.string v) = some v
as_str _ = none

-- The integer that a value stands for, if it is one of the types that the casts take.
abbrev pub integer : Value → Option ℤ
integer (Value.boolean v) = some (pos (bit v))
integer (Value.int8 v) = some v
integer (Value.uint8 v) = some (pos v)
integer (Value.int16 v) = some v
integer (Value.uint16 v) = some (pos v)
integer (Value.int32 v) = some v
integer (Value.uint32 v) = some (pos v)
integer (Value.int64 v) = some v
integer (Value.uint64 v) = some (pos v)
integer _ = none

-- The residue of an integer in a modulus.
abbrev pub IsResidue : ℕ → ℤ → ℕ → Type 0
IsResidue m (pos n) u = u ≡ n
IsResidue m (negsuc n) u = u + suc n ≡ m

-- Where one cast has a result, another has one too.
abbrev pub taken {ℓ κ} : {A : Type ℓ} {B : Type κ} → Option A → Option B → Bool
taken none r = true
taken (some _) none = false
taken (some _) (some _) = true

-- The casts to signed types never change the number: what they return is the integer that the
-- value stands for, and it lies in the range of the type returned.
pub signed_casts_exact :
    (v : Value) (z : ℤ)
    → InRange v
    → (as_i8 v ≡ some z → (integer v ≡ some z) × InSigned (2 ^ 8) z)
      × (as_i16 v ≡ some z → (integer v ≡ some z) × InSigned (2 ^ 16) z)
      × (as_i32 v ≡ some z → (integer v ≡ some z) × InSigned (2 ^ 32) z)
      × (as_i64 v ≡ some z → (integer v ≡ some z) × InSigned (2 ^ 64) z)
unfolding as_i8 as_i16 as_i32 as_i64
signed_casts_exact Value.null z h = ground arith
signed_casts_exact _ z h = ground arith

-- The casts to unsigned types return the integer's residue: the integer itself where it is not
-- negative, and the integer plus the modulus of the type where it is.
pub unsigned_casts-IsResidue :
    (v : Value) (z : ℤ) (u : ℕ)
    → InRange v
    → integer v ≡ some z
    → (as_u8 v ≡ some u → IsResidue (2 ^ 8) z u)
      × (as_u16 v ≡ some u → IsResidue (2 ^ 16) z u)
      × (as_u32 v ≡ some u → IsResidue (2 ^ 32) z u)
      × (as_u64 v ≡ some u → IsResidue (2 ^ 64) z u)
unfolding as_u8 as_u16 as_u32 as_u64
unsigned_casts-IsResidue Value.null z u h e = ground arith
unsigned_casts-IsResidue _ z u h e = ground arith

-- A value that a cast to a narrower type takes is taken by the cast to each wider type of the
-- same sign, and `as_u64` takes exactly the values that stand for an integer.
pub casts_widen :
    (v : Value)
    → (taken (as_i8 v) (as_i16 v) ≡ true)
      × (taken (as_i16 v) (as_i32 v) ≡ true)
      × (taken (as_i32 v) (as_i64 v) ≡ true)
      × (taken (as_u8 v) (as_u16 v) ≡ true)
      × (taken (as_u16 v) (as_u32 v) ≡ true)
      × (taken (as_u32 v) (as_u64 v) ≡ true)
      × (taken (as_u64 v) (integer v) ≡ true)
      × (taken (integer v) (as_u64 v) ≡ true)
unfolding as_i8 as_i16 as_i32 as_i64 as_u8 as_u16 as_u32 as_u64
casts_widen Value.null = ground arith
casts_widen _ = ground arith
