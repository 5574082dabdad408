-- ===== src/Value/Float/Cast.antt =====
-- What `as_f32` and `as_f64` return of an integer.
use horaedb_client_rs.Prelude.{
  ℕ, suc, ◌+◌, ◌-◌, ◌*◌, ◌/◌, ◌%◌, ◌^◌, ◌≤◌, ◌<◌, ◌≡◌, ap, sym, ◌∙◌, subst, some, ℤ, pos, negsuc,
  arith,
}
use horaedb_client_rs.Value.{Value, InRange}
use horaedb_client_rs.Value.Cast.{integer}
use horaedb_client_rs.Value.Float.{Format, binary32, binary64, of_nat, of_int, as_f32, as_f64}
use horaedb_client_rs.Value.Float.Nearest.{unit, of_nat-IsNear, of_nat-exact, of_nat-le}
use horaedb_client_rs.Value.Float.Round.{scaled, IsNear, place-div, place-mod}

abbrev pub size : ℤ → ℕ
size (pos n) = n
size (negsuc n) = suc n

abbrev pub sign : ℤ → ℕ
sign (pos n) = 0
sign (negsuc n) = 1

-- The float of an integer: its sign, and the nearest magnitude.
pub record IsCast (f : Format) (z : ℤ) (b : ℕ) : Type 0 where
  pub signed : b / 2 ^ (f.width - 1) ≡ sign z
  pub near : IsNear (2 ^ f.fraction) (unit f) (scaled f.fraction (b % 2 ^ (f.width - 1))) (size z)
  pub exact :
      size z < 2 ^ suc f.fraction → scaled f.fraction (b % 2 ^ (f.width - 1)) ≡ size z * unit f

signed-IsCast :
    (f : Format) (z : ℤ)
    → 1 ≤ f.bias
    → suc (f.bias + 63) * 2 ^ f.fraction < 2 ^ (f.width - 1)
    → size z < 2 ^ 64
    → IsCast f z (sign z * 2 ^ (f.width - 1) + of_nat f (size z))
signed-IsCast f z b room h =
    let low : of_nat f (size z) < 2 ^ (f.width - 1) =
      omega (arith, of_nat-le f (size z) b h, room) in
    let whole = place-mod (2 ^ (f.width - 1)) (sign z) (of_nat f (size z)) low in
    record {
      signed = place-div (2 ^ (f.width - 1)) (sign z) (of_nat f (size z)) low;
      near =
          subst (λ x. IsNear (2 ^ f.fraction) (unit f) (scaled f.fraction x) (size z)) (sym whole)
            (of_nat-IsNear f (size z) b h);
      exact = λ small. ap (scaled f.fraction) whole ∙ of_nat-exact f (size z) b h small;
    }

of_int-IsCast :
    (f : Format) (z : ℤ)
    → 1 ≤ f.bias
    → suc (f.bias + 63) * 2 ^ f.fraction < 2 ^ (f.width - 1)
    → size z < 2 ^ 64
    → IsCast f z (of_int f z)
unfolding of_int
of_int-IsCast f (pos n) b room h =
    subst (IsCast f (pos n)) (omega arith) (signed-IsCast f (pos n) b room h)
of_int-IsCast f (negsuc n) b room h =
    subst (λ x. IsCast f (negsuc n) (x + of_nat f (suc n))) (omega arith)
      (signed-IsCast f (negsuc n) b room h)

integer-size : (v : Value) (z : ℤ) → InRange v → integer v ≡ some z → size z < 2 ^ 64
integer-size Value.null z h e = ground arith
integer-size _ z h e = ground arith

f32-of_int :
    (v : Value) (z : ℤ) (b : ℕ) → integer v ≡ some z → as_f32 v ≡ some b → b ≡ of_int binary32 z
unfolding as_f32
f32-of_int Value.null z b e h = ground arith
f32-of_int _ z b e h = ground arith

f64-of_int :
    (v : Value) (z : ℤ) (b : ℕ) → integer v ≡ some z → as_f64 v ≡ some b → b ≡ of_int binary64 z
unfolding as_f64
f64-of_int Value.null z b e h = ground arith
f64-of_int _ z b e h = ground arith

-- What the casts to floats return of an integer has the integer's sign, a relative error of at most 1 / 2^24
-- (f32) and 1 / 2^53 (f64), and none if the integer's size is below 2^24 (f32) and 2^53 (f64).
pub float_casts-IsCast :
    (v : Value) (z : ℤ) (b : ℕ)
    → InRange v
    → integer v ≡ some z
    → (as_f32 v ≡ some b → IsCast binary32 z b) × (as_f64 v ≡ some b → IsCast binary64 z b)
float_casts-IsCast v z b h e = (
  λ c.
      subst (IsCast binary32 z) (sym (f32-of_int v z b e c))
        (of_int-IsCast binary32 z (omega arith) (omega arith) (integer-size v z h e)),
  λ c.
      subst (IsCast binary64 z) (sym (f64-of_int v z b e c))
        (of_int-IsCast binary64 z (omega arith) (omega arith) (integer-size v z h e)),
)
