-- ===== src/Write/NameDict/Ordered.antt =====
-- `convert_ordered` gives the names in the order of their numbers.
use native.Mathlib.Decide.{ℕ_discrete}
use native.Mathlib.Bridge.{le_prop}
use mathlib.Core.HLevel.{×_prop}
use mathlib.Core.Path.{ap₂}
use mathlib.Core.Logic.Or
use mathlib.Core.List.{mem-cons, not-mem-nil, mem-cons_self}
use mathlib.Core.List.Perm
use horaedb_client_rs.Prelude.{
  ℕ, zero, suc, ◌+◌, ◌-◌, ◌≤◌, ◌<◌, ◌≡◌, refl, ap, sym, subst, ◌∙◌, Option, some, List, [], ◌∷◌,
  arith, Str, str_eq, length, set, replicate, get_elem?, Mem, length-replicate, length-set,
  get_elem?-set_self, get_elem?-set_ne, get_elem?-lt, get_elem?_total, ext_get_elem?, lt→ltb,
  some_inj,
}
use horaedb_client_rs.HashMap.{HashMap, Arrangement}
use horaedb_client_rs.Write.NameDict.Laws.{names_of, Numbered, IsValid, length-names_of}
use horaedb_client_rs.Write.NameDict.{NameDict, place, convert_ordered}

option_set : IsSet (Option Str)
option_set = hlevel

-- Writing the entries of a list that agrees with `names` into `ordered`.
abbrev Agrees : List Str → List (Str × ℕ) → Type 0
Agrees names l = (name : Str) (i : ℕ) → Mem (name, i) l → get_elem? names i ≡ some name

-- A write that agrees keeps what is right, and makes its place right.
set_agrees :
    (names ordered : List Str) (i j : ℕ) (name : Str)
    → get_elem? names i ≡ some name
    → i < length ordered
    → get_elem? ordered j ≡ get_elem? names j
    → get_elem? (set ordered i name) j ≡ get_elem? names j
set_agrees names ordered i j name e h right = elim (ℕ_discrete i j) [
  | yes p ↦
      subst (λ k. get_elem? (set ordered i name) k ≡ get_elem? names k) p
        (get_elem?-set_self ordered i name h ∙ sym e)
  | no p ↦ get_elem?-set_ne ordered i j name p ∙ right
]

record IsPlaced (names : List Str) (l : List (Str × ℕ)) (ordered result : List Str) : Type 0 where
  pub size : length result ≡ length ordered
  pub keeps :
      (j : ℕ) → get_elem? ordered j ≡ get_elem? names j → get_elem? result j ≡ get_elem? names j
  pub places : (name : Str) (j : ℕ) → Mem (name, j) l → get_elem? result j ≡ some name

place-Agrees :
    (names : List Str) (l : List (Str × ℕ)) (ordered : List Str)
    → Agrees names l
    → length ordered ≡ length names
    → (result : List Str) × (place l ordered ≡ some result) × IsPlaced names l ordered result
unfolding place
place-Agrees names [] ordered a e = (
  ordered,
  refl,
  record { size = refl; keeps = λ j h. h; places = λ name j m. absurd (not-mem-nil m) },
)
place-Agrees names ((name, i) ∷ l) ordered a e =
    let here : get_elem? names i ≡ some name = a name i mem-cons_self in
    let lt : i < length ordered = omega (arith, get_elem?-lt names i name here) in
    let (result, run, p) =
      place-Agrees names l (set ordered i name) (λ n j m. a n j (mem-cons.1 (Or.inr m)))
        (length-set ordered i name ∙ e) in
    (
      result,
      rw (lt→ltb i (length ordered) lt) run,
      record {
        size = p.size ∙ length-set ordered i name;
        keeps = λ j h. p.keeps j (set_agrees names ordered i j name here lt h);
        places = λ n j m.
            Or.elim (option_set _ _) (mem-cons.0 m)
              (λ q.
                ap (λ (t : Str × ℕ). get_elem? result t.1) q
                ∙ p.keeps i (get_elem?-set_self ordered i name lt ∙ sym here)
                ∙ here
                ∙ ap (λ (t : Str × ℕ). some t.0) (sym q))
              (p.places n j);
      },
    )

-- Entries and places, both ways.
mem-Numbered :
    (k : ℕ) (m : HashMap Str ℕ) (name : Str) (i : ℕ)
    → Numbered k m
    → Mem (name, i) m
    → (k ≤ i) × (get_elem? (names_of m) (i - k) ≡ some name)
mem-Numbered k [] name i h q = absurd (not-mem-nil q)
mem-Numbered k ((n, j) ∷ m) name i h q =
    Or.elim (×_prop le_prop (option_set _ _)) (mem-cons.0 q)
      (λ e. first (ap (λ (t : Str × ℕ). t.0) e) (ap (λ (t : Str × ℕ). t.1) e))
      (λ r. later (mem-Numbered (suc k) m name i h.1 r))
  where
    first : name ≡ n → i ≡ j → (k ≤ i) × (get_elem? (n ∷ names_of m) (i - k) ≡ some name)
    first p e = let z : i - k ≡ 0 = omega arith in (omega arith, rw z (ap some (sym p)))

    later :
        (suc k ≤ i) × (get_elem? (names_of m) (i - suc k) ≡ some name)
        → (k ≤ i) × (get_elem? (n ∷ names_of m) (i - k) ≡ some name)
    later p = let z : i - k ≡ suc (i - suc k) = omega arith in (omega arith, rw z p.1)

mem-of_get_elem? :
    (k : ℕ) (m : HashMap Str ℕ) (name : Str) (j : ℕ)
    → Numbered k m
    → get_elem? (names_of m) j ≡ some name
    → Mem (name, k + j) m
mem-of_get_elem? k [] name j h e = cc
mem-of_get_elem? k ((n, i) ∷ m) name zero h e =
    mem-cons.1 (Or.inl (ap₂ (λ a b. (a, b)) (sym (some_inj e)) (omega arith)))
mem-of_get_elem? k ((n, i) ∷ m) name (suc j) h e =
    mem-cons.1 (
      Or.inr (subst (λ z. Mem (name, z) m) (omega arith) (mem-of_get_elem? (suc k) m name j h.1 e)))

-- In whatever order the map is read, the names come out at the places of their numbers, and no
-- index is out of bounds.
pub convert_ordered-eq-names_of :
    (h : Arrangement (Str × ℕ)) (d : NameDict)
    → IsValid d
    → convert_ordered h d ≡ some (names_of d.dict)
unfolding convert_ordered
convert_ordered-eq-names_of h d v =
    let names = names_of d.dict in
    let blank : List Str = replicate (length d.dict) [] in
    let sizes : length blank ≡ length names =
      length-replicate (length d.dict) [] ∙ sym (length-names_of d.dict) in
    let agrees : Agrees names (h.arrange d.dict) = λ n i m.
      subst (λ k. get_elem? names k ≡ some n) (omega arith)
        (mem-Numbered 0 d.dict n i v.numbered ((Perm.mem_iff (h.arrange-perm d.dict)).0 m)).1 in
    let (result, run, p) = place-Agrees names (h.arrange d.dict) blank agrees sizes in
    run
    ∙ ap some (
        ext_get_elem? result names (p.size ∙ sizes) (λ i lt.
          let (x, e) = get_elem?_total names i lt in
          let there : Mem (x, i) d.dict =
            subst (λ k. Mem (x, k) d.dict) (omega arith)
              (mem-of_get_elem? 0 d.dict x i v.numbered e) in
          p.places x i ((Perm.mem_iff (h.arrange-perm d.dict)).1 there) ∙ sym e))
