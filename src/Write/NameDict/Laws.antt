-- ===== src/Write/NameDict/Laws.antt =====
-- The invariant of a `NameDict`, and what `insert` and `convert_ordered` promise.
use mathlib.Core.List.{append_assoc, append-nil}
use horaedb_client_rs.Prelude.{
  ℕ, suc, ◌+◌, ◌-◌, ◌%◌, ◌^◌, ◌≤◌, ◌<◌, ◌≡◌, refl, ap, sym, subst, ◌∙◌, none, some, List, [], ◌∷◌,
  ◌++◌, arith, Str, ◌==◌, str_eq, str_eqb_iff, length, get_elem?, length-append, Bool-cases,
  Option-cases, inl, inr,
}
use horaedb_client_rs.HashMap
use horaedb_client_rs.HashMap.{HashMap, Arrangement}
use horaedb_client_rs.Write.NameDict.{NameDict, new, insert}

-- The names, in the order of their first use.
abbrev pub names_of : HashMap Str ℕ → List Str
names_of [] = []
names_of ((name, idx) ∷ m) = name ∷ names_of m

-- Each entry is numbered by its place.
abbrev pub Numbered : ℕ → HashMap Str ℕ → Type 0
Numbered k [] = Unit
Numbered k ((name, idx) ∷ m) = (idx ≡ k) × Numbered (suc k) m

pub record IsValid (d : NameDict) : Type 0 where
  pub numbered : Numbered 0 d.dict
  pub next : d.name_idx ≡ length d.dict % 2 ^ 32

pub new-IsValid : IsValid new
unfolding new
new-IsValid = record { numbered = tt; next = refl }

-- A name that is not there goes to the end.
insert_absent :
    (m : HashMap Str ℕ) (name : Str) (idx : ℕ)
    → HashMap.get m name ≡ none
    → HashMap.insert name idx m ≡ m ++ (name, idx) ∷ []
unfolding HashMap.get HashMap.insert
insert_absent [] name idx h = refl
insert_absent ((n, i) ∷ m) name idx h = ground (arith, insert_absent m name idx)

Numbered-append :
    (k : ℕ) (m : HashMap Str ℕ) (name : Str) (idx : ℕ)
    → Numbered k m
    → idx ≡ k + length m
    → Numbered k (m ++ (name, idx) ∷ [])
Numbered-append k [] name idx h e = (omega arith, tt)
Numbered-append k ((n, i) ∷ m) name idx h e =
    (h.0, Numbered-append (suc k) m name idx h.1 (omega arith))

names_of-append : (m n : HashMap Str ℕ) → names_of (m ++ n) ≡ names_of m ++ names_of n
names_of-append [] n = refl
names_of-append ((name, i) ∷ m) n = ap (λ l. name ∷ l) (names_of-append m n)

pub length-names_of : (m : HashMap Str ℕ) → length (names_of m) ≡ length m
length-names_of [] = refl
length-names_of ((name, i) ∷ m) = ap suc (length-names_of m)

-- The number of a name is its place.
get_elem?-names_of :
    (k : ℕ) (m : HashMap Str ℕ) (name : Str) (i : ℕ)
    → Numbered k m
    → HashMap.get m name ≡ some i
    → (k ≤ i) × (get_elem? (names_of m) (i - k) ≡ some name)
unfolding HashMap.get
get_elem?-names_of k [] name i h e = cc
get_elem?-names_of k ((n, j) ∷ m) name i h e = elim (Bool-cases (n == name)) [
  | inl same ↦ found (ground arith, (str_eqb_iff n name).0 same)
  | inr other ↦ later (get_elem?-names_of (suc k) m name i h.1 (ground arith))
]
  where
    found : (j ≡ i) × (n ≡ name) → (k ≤ i) × (get_elem? (n ∷ names_of m) (i - k) ≡ some name)
    found p = let z : i - k ≡ 0 = omega arith in (omega arith, rw z (ap some p.1))

    later :
        (suc k ≤ i) × (get_elem? (names_of m) (i - suc k) ≡ some name)
        → (k ≤ i) × (get_elem? (n ∷ names_of m) (i - k) ≡ some name)
    later p = let z : i - k ≡ suc (i - suc k) = omega arith in (omega arith, rw z p.1)

-- What `insert` promises: the dictionary stays valid and keeps its entries at their places, and
-- the number that it returns is the place of the name.
pub record IsInserted (d : NameDict) (name : Str) (r : ℕ × NameDict) : Type 0 where
  pub valid : IsValid r.1
  pub added : List Str
  pub grows : names_of r.1.dict ≡ names_of d.dict ++ added
  pub found : get_elem? (names_of r.1.dict) r.0 ≡ some name

-- The new name at the end.
appended : NameDict → Str → NameDict
appended d name = record {
  dict = d.dict ++ (name, d.name_idx) ∷ [];
  name_idx = (d.name_idx + 1) % 2 ^ 32;
}

get_elem?-append_end : (xs : List Str) (x : Str) → get_elem? (xs ++ x ∷ []) (length xs) ≡ some x
get_elem?-append_end [] x = refl
get_elem?-append_end (y ∷ xs) x = get_elem?-append_end xs x

appended-IsInserted :
    (d : NameDict) (name : Str)
    → IsValid d
    → length d.dict < 2 ^ 32
    → IsInserted d name (d.name_idx, appended d name)
unfolding appended
appended-IsInserted d name v h =
    let idx : d.name_idx ≡ length d.dict = omega arith in
    record {
      valid = record {
        numbered = Numbered-append 0 d.dict name d.name_idx v.numbered (omega arith);
        next = omega (arith, length-append d.dict ((name, d.name_idx) ∷ []));
      };
      added = name ∷ [];
      grows = names_of-append d.dict _;
      found = rw names_of-append (
          subst (λ j. get_elem? (names_of d.dict ++ name ∷ []) j ≡ some name)
            (length-names_of d.dict ∙ sym idx) (get_elem?-append_end (names_of d.dict) name));
    }

insert-appended :
    (d : NameDict) (name : Str)
    → HashMap.get d.dict name ≡ none
    → insert d name ≡ (d.name_idx, appended d name)
unfolding insert appended
insert-appended d name absent =
    rw (absent, insert)
      (ap {B = ℕ × NameDict}
        (λ m. (d.name_idx, record { dict = m; name_idx = (d.name_idx + 1) % 2 ^ 32 }))
        (insert_absent d.dict name d.name_idx absent))

length-appended :
    (d : NameDict) (name : Str) → length (names_of (appended d name).dict) ≡ suc (length d.dict)
unfolding appended
length-appended d name = omega (
  arith,
  length-names_of (d.dict ++ (name, d.name_idx) ∷ []),
  length-append d.dict ((name, d.name_idx) ∷ []),
)

pub insert-IsInserted :
    (d : NameDict) (name : Str)
    → IsValid d
    → length (names_of (insert d name).1.dict) ≤ 2 ^ 32
    → IsInserted d name (insert d name)
unfolding insert
insert-IsInserted d name v h = elim (Option-cases (HashMap.get d.dict name)) [
  | inl absent ↦
      let e = insert-appended d name absent in
      subst (IsInserted d name) (sym e) (
        appended-IsInserted d name v (
          omega (
            arith,
            ap (λ (r : ℕ × NameDict). length (names_of r.1.dict)) e,
            length-appended d name,
          )))
  | inr (i, present) ↦
      rw (present, insert)
        (record {
          valid = v;
          added = [];
          grows = sym (append-nil _);
          found =
              subst (λ j. get_elem? (names_of d.dict) j ≡ some name) (omega arith)
                (get_elem?-names_of 0 d.dict name i v.numbered present).1;
        })
]

-- How a dictionary grows: names are only added, at most `n` of them, behind those that are there.
pub record Grows (d e : NameDict) (n : ℕ) : Type 0 where
  pub added : List Str
  pub grows : names_of e.dict ≡ names_of d.dict ++ added
  pub few : length added ≤ n

pub Grows-refl : (d : NameDict) → Grows d d 0
Grows-refl d = record { added = []; grows = sym (append-nil _); few = omega arith }

pub Grows-trans : {d e f : NameDict} {m n : ℕ} → Grows d e m → Grows e f n → Grows d f (m + n)
Grows-trans {d} g h = record {
  added = g.added ++ h.added;
  grows = h.grows ∙ ap (λ l. l ++ h.added) g.grows ∙ append_assoc (names_of d.dict) g.added h.added;
  few = omega (arith, length-append g.added h.added, g.few, h.few);
}

pub length-Grows :
    {d e : NameDict} {n : ℕ} → Grows d e n → length (names_of e.dict) ≤ length (names_of d.dict) + n
length-Grows {d} g =
    omega (arith, ap (length {A = Str}) g.grows, length-append (names_of d.dict) g.added, g.few)

pub insert-Grows : (d : NameDict) (name : Str) → Grows d (insert d name).1 1
unfolding insert
insert-Grows d name = elim (Option-cases (HashMap.get d.dict name)) [
  | inl absent ↦
      subst (λ (r : ℕ × NameDict). Grows d r.1 1) (sym (insert-appended d name absent))
        (unfold appended in
          record { added = name ∷ []; grows = names_of-append d.dict _; few = omega arith })
  | inr (i, present) ↦
      rw (present, insert) (record { added = []; grows = sym (append-nil _); few = omega arith })
]

pub Grows-wider : {d e : NameDict} {m n : ℕ} → Grows d e m → m ≤ n → Grows d e n
Grows-wider g h = record { added = g.added; grows = g.grows; few = omega (arith, g.few) }
