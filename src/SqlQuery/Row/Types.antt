-- ===== src/SqlQuery/Row/Types.antt =====
-- How arrow's data types are to be read, told apart from the code: the arrays that arrow has for a type, and
-- the values that their elements stand for.
use horaedb_client_rs.Prelude.{◌≡◌, refl, Option, Str}
use horaedb_client_rs.Value.{Value}
use horaedb_client_rs.SqlQuery.Arrow.{ArrowType, TimeUnit, ArrayKind, Elem}
use horaedb_client_rs.SqlQuery.Row.{Arm, arm_of, wrap}

-- A column of this type is an array of this kind, whose elements are read as these values. Large texts and
-- large binaries are listed with the kinds that the code asks for; arrow refuses these downcasts.
pub data IsReadAs : ArrowType → (k : ArrayKind) → (Elem k → Value) → Type 0 where
  booleans : IsReadAs ArrowType.boolean ArrayKind.boolean_array Value.boolean
  int8s : IsReadAs ArrowType.int8 ArrayKind.int8_array Value.int8
  int16s : IsReadAs ArrowType.int16 ArrayKind.int16_array Value.int16
  int32s : IsReadAs ArrowType.int32 ArrayKind.int32_array Value.int32
  int64s : IsReadAs ArrowType.int64 ArrayKind.int64_array Value.int64
  uint8s : IsReadAs ArrowType.uint8 ArrayKind.uint8_array Value.uint8
  uint16s : IsReadAs ArrowType.uint16 ArrayKind.uint16_array Value.uint16
  uint32s : IsReadAs ArrowType.uint32 ArrayKind.uint32_array Value.uint32
  uint64s : IsReadAs ArrowType.uint64 ArrayKind.uint64_array Value.uint64
  float32s : IsReadAs ArrowType.float32 ArrayKind.float32_array Value.float
  float64s : IsReadAs ArrowType.float64 ArrayKind.float64_array Value.double
  texts : IsReadAs ArrowType.utf8 ArrayKind.string_array Value.string
  large_texts : IsReadAs ArrowType.large_utf8 ArrayKind.string_array Value.string
  binaries : IsReadAs ArrowType.binary ArrayKind.binary_array Value.varbinary
  large_binaries : IsReadAs ArrowType.large_binary ArrayKind.binary_array Value.varbinary
  timestamps :
      (tz : Option Str)
      → IsReadAs
          (ArrowType.timestamp TimeUnit.millisecond tz)
          ArrayKind.timestamp_millisecond_array
          Value.timestamp
  times :
      IsReadAs
        (ArrowType.time32 TimeUnit.millisecond)
        ArrayKind.time32_millisecond_array
        Value.timestamp
  dictionaries :
      IsReadAs
        (ArrowType.dictionary ArrowType.int32 ArrowType.utf8)
        ArrayKind.dictionary_array
        Value.string

-- The code reads columns so.
pub arm_of-IsReadAs :
    (t : ArrowType) (k : ArrayKind) (w : Elem k → Value) → IsReadAs t k w → arm_of t ≡ Arm.cast k
unfolding arm_of
arm_of-IsReadAs t k w booleans = refl
arm_of-IsReadAs t k w int8s = refl
arm_of-IsReadAs t k w int16s = refl
arm_of-IsReadAs t k w int32s = refl
arm_of-IsReadAs t k w int64s = refl
arm_of-IsReadAs t k w uint8s = refl
arm_of-IsReadAs t k w uint16s = refl
arm_of-IsReadAs t k w uint32s = refl
arm_of-IsReadAs t k w uint64s = refl
arm_of-IsReadAs t k w float32s = refl
arm_of-IsReadAs t k w float64s = refl
arm_of-IsReadAs t k w texts = refl
arm_of-IsReadAs t k w large_texts = refl
arm_of-IsReadAs t k w binaries = refl
arm_of-IsReadAs t k w large_binaries = refl
arm_of-IsReadAs t k w (timestamps tz) = refl
arm_of-IsReadAs t k w times = refl
arm_of-IsReadAs t k w dictionaries = refl

pub wrap-IsReadAs :
    (t : ArrowType) (k : ArrayKind) (w : Elem k → Value)
    → IsReadAs t k w
    → (v : Elem k) → wrap k v ≡ w v
wrap-IsReadAs t k w booleans v = refl
wrap-IsReadAs t k w int8s v = refl
wrap-IsReadAs t k w int16s v = refl
wrap-IsReadAs t k w int32s v = refl
wrap-IsReadAs t k w int64s v = refl
wrap-IsReadAs t k w uint8s v = refl
wrap-IsReadAs t k w uint16s v = refl
wrap-IsReadAs t k w uint32s v = refl
wrap-IsReadAs t k w uint64s v = refl
wrap-IsReadAs t k w float32s v = refl
wrap-IsReadAs t k w float64s v = refl
wrap-IsReadAs t k w texts v = refl
wrap-IsReadAs t k w large_texts v = refl
wrap-IsReadAs t k w binaries v = refl
wrap-IsReadAs t k w large_binaries v = refl
wrap-IsReadAs t k w (timestamps tz) v = refl
wrap-IsReadAs t k w times v = refl
wrap-IsReadAs t k w dictionaries v = refl
