-- ===== src/SqlQuery/Row/Cells.antt =====
-- Filling the cells of one column.
use mathlib.Core.Path.{ap₂}
use horaedb_client_rs.Prelude.{
  ℕ, zero, suc, ◌+◌, ◌<◌, ◌≤◌, ◌≡◌, refl, ap, sym, Option, some, List, [], ◌∷◌, ◌++◌, map, arith,
  replicate, length, get_elem?, length-map,
}
use horaedb_client_rs.Value.{Value}
use horaedb_client_rs.SqlQuery.Row.{set_cell, fill_from}

-- The rows from `idx` on, `n` of them.
abbrev pub tabulate {ℓ} : {A : Type ℓ} → (ℕ → A) → ℕ → ℕ → List A
tabulate g idx zero = []
tabulate g idx (suc n) = g idx ∷ tabulate g (suc idx) n

pub tabulate-ext {ℓ} :
    {A : Type ℓ} (f g : ℕ → A) (idx n : ℕ)
    → ((i : ℕ) → f i ≡ g i)
    → tabulate f idx n ≡ tabulate g idx n
tabulate-ext f g idx zero h = refl
tabulate-ext f g idx (suc n) h = ap₂ (λ a l. a ∷ l) (h idx) (tabulate-ext f g (suc idx) n h)

pub replicate-tabulate {ℓ} :
    {A : Type ℓ} (a : A) (idx n : ℕ) → replicate n a ≡ tabulate (λ i. a) idx n
replicate-tabulate a idx zero = refl
replicate-tabulate a idx (suc n) = ap (λ l. a ∷ l) (replicate-tabulate a (suc idx) n)

-- The cells of one row.
abbrev pub row_at : List (ℕ → Value) → ℕ → List Value
row_at fs i = map (λ (f : ℕ → Value). f i) fs

pub row_at-snoc :
    (done : List (ℕ → Value)) (f : ℕ → Value) (i : ℕ) (post : List Value)
    → row_at done i ++ f i ∷ post ≡ row_at (done ++ f ∷ []) i ++ post
row_at-snoc [] f i post = refl
row_at-snoc (g ∷ done) f i post = ap (λ l. g i ∷ l) (row_at-snoc done f i post)

pub get_elem?-middle {ℓ} :
    {A : Type ℓ} (xs : List A) (y : A) (zs : List A) → get_elem? (xs ++ y ∷ zs) (length xs) ≡ some y
get_elem?-middle [] y zs = refl
get_elem?-middle (x ∷ xs) y zs = get_elem?-middle xs y zs

set_cell-append :
    (xs : List Value) (v w : Value) (ys : List Value)
    → set_cell (xs ++ v ∷ ys) (length xs) w ≡ some (xs ++ w ∷ ys)
unfolding set_cell
set_cell-append [] v w ys = refl
set_cell-append (x ∷ xs) v w ys = rw (set_cell-append xs v w ys) refl

-- What an array has under its cells, once it is cast.
abbrev pub Holds : {E : Type 0} → (ℕ → Option E) → (E → Value) → ℕ → ℕ → (ℕ → Value) → Type 0
Holds {E} value w idx n f =
    (i : ℕ) → idx ≤ i → i < idx + n → (v : E) × ((value i ≡ some v) × (f i ≡ w v))

pub fill_from-tabulate :
    {E : Type 0} (value : ℕ → Option E) (w : E → Value) (done : List (ℕ → Value)) (f : ℕ → Value)
    (post : List Value) (idx n : ℕ)
    → Holds value w idx n f
    → fill_from value w idx (tabulate (λ i. row_at done i ++ Value.null ∷ post) idx n) (length done)
      ≡ some (tabulate (λ i. row_at done i ++ f i ∷ post) idx n)
unfolding fill_from
fill_from-tabulate value w done f post idx zero h = refl
fill_from-tabulate {E} value w done f post idx (suc n) h =
    let (v, (read, is)) = h idx (omega arith) (omega arith) in
    rw read (
      rw (sym (length-map (λ (g : ℕ → Value). g idx) done)) (
        rw (set_cell-append (row_at done idx) Value.null (w v) post) (
          rw
            (
              length-map (λ (g : ℕ → Value). g idx) done,
              fill_from-tabulate value w done f post (suc idx) n
                  (λ i lo hi. h i (omega arith) (omega arith)),
              is,
            )
            refl)))
