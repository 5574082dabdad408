-- ===== src/Write/Compare/Expected.antt =====
-- Finding a point among those that the test `test_build_write_table` expects.
use mathlib.Core.List.{mem-cons, Mem-prop}
use mathlib.Core.List.Perm
use mathlib.Core.Logic.Or
use mathlib.Core.Path.{ap₂}
use horaedb_client_rs.Prelude.{
  ◌≡◌, ◌≢◌, ap, sym, ◌∙◌, none, some, List, [], ◌∷◌, ◌++◌, Mem, All, All-Mem, Str, Option-cases,
  inl, inr, subst, str_eq, ◌==◌, Bool-cases,
}
use horaedb_client_rs.BTreeMap
use horaedb_client_rs.BTreeMap.{BTreeMap}
use horaedb_client_rs.BTreeMap.Same.{none_given}
use horaedb_client_rs.HashMap.{Arrangement}
use horaedb_client_rs.HashMap.Entries.{arrange-IsDistinct}
use horaedb_client_rs.Write.Point.{Point}
use horaedb_client_rs.Write.Key.{make_tags_key}
use horaedb_client_rs.Write.Request.{default, add_points, of_table}
use horaedb_client_rs.Write.Survive.{
  Survives, Survives-Mem, KeysApart, last_point, last_point-Survives, Survives-last_point,
}
use horaedb_client_rs.Write.Groups.{groups-IsDistinct, group-Mem, Mem-group, of_table-All}
use horaedb_client_rs.Write.Whole.Requests.{Survives-not_empty}
use horaedb_client_rs.Write.Compare.{CmpKey, cmp_ord, make_cmp_key, extend_all}
use horaedb_client_rs.Write.Compare.Last.{last_of_key, last_of_key_sound, last_of_key-last_point}
use horaedb_client_rs.Write.Compare.Found.{extend_all-finds, extend_all-HasLast}

-- The keys of the test, without their times, tell tables and tags apart.
abbrev pub CmpKeysApart : List Point → Type 0
CmpKeysApart ps =
    (p q : Point)
    → Mem p ps
    → Mem q ps
    → p.table ++ make_tags_key p.tags ≡ q.table ++ make_tags_key q.tags
    → (p.table ≡ q.table) × (p.tags ≡ q.tags)

pub Mem-of_table : (q : Point) (t : Str) (ps : List Point) → Mem q (of_table t ps) → Mem q ps
Mem-of_table q t [] m = m
Mem-of_table q t (p ∷ ps) m = elim (Bool-cases (p.table == t)) [
  | inl same ↦
      Or.elim Mem-prop (mem-cons.0 (rw same at m)) (λ e. mem-cons.1 (Or.inl e))
        (λ n. mem-cons.1 (Or.inr (Mem-of_table q t ps n)))
  | inr other ↦ mem-cons.1 (Or.inr (Mem-of_table q t ps (rw other at m)))
]

table-of : (q : Point) (t : Str) (ps : List Point) → Mem q (of_table t ps) → q.table ≡ t
table-of q t ps m = All-Mem (λ p. p.table ≡ t) q (of_table t ps) (Str-set _ _) (of_table-All t ps) m
  where
    Str-set : IsSet Str
    Str-set = hlevel

pub CmpKeysApart-KeysApart :
    (ps : List Point) → CmpKeysApart ps → (t : Str) → KeysApart (of_table t ps)
CmpKeysApart-KeysApart ps apart t p q m n e =
    (apart p q (Mem-of_table p t ps m) (Mem-of_table q t ps n)
      (ap₂ (λ x y. x ++ y) (table-of p t ps m ∙ sym (table-of q t ps n)) e)).1

module _ (h : Arrangement (Str × List Point)) (ps : List Point) (apart : CmpKeysApart ps) where
  abbrev pub groups : List (Str × List Point)
  groups = h.arrange (add_points default ps).point_groups

  there : (x : Str × List Point) → Mem x groups → Mem x (add_points default ps).point_groups
  there x m = (Perm.mem_iff (h.arrange-perm (add_points default ps).point_groups)).0 m

  last_of-table :
      (q : Point) (l : List Point)
      → All (λ p. p.table ≡ q.table) l
      → last_of_key (make_cmp_key q) l ≡ last_point (make_tags_key q.tags) q.timestamp l
  unfolding make_cmp_key
  last_of-table q l a = last_of_key-last_point q.table (make_tags_key q.tags) q.timestamp l a

  -- A point that survives is expected.
  pub expected_of-Survives :
      (q : Point)
      → Survives q (of_table q.table ps)
      → BTreeMap.get (extend_all groups []) (make_cmp_key q) ≡ some q
  unfolding make_cmp_key
  expected_of-Survives q s =
      extend_all-finds groups [] (make_cmp_key q) q q.table (of_table q.table ps)
        (arrange-IsDistinct h (add_points default ps).point_groups (groups-IsDistinct ps))
        ((Perm.mem_iff (h.arrange-perm (add_points default ps).point_groups)).1
          (Mem-group ps q.table (Survives-not_empty q (of_table q.table ps) s)))
        (last_of-table q (of_table q.table ps) (of_table-All q.table ps)
          ∙ Survives-last_point q (of_table q.table ps)
              (λ p m.
                CmpKeysApart-KeysApart ps apart q.table p q m
                  (Survives-Mem q (of_table q.table ps) s))
              s)
        others
    where
      others :
          (u : Str) (f : List Point)
          → Mem (u, f) groups
          → u ≢ q.table
          → last_of_key (make_cmp_key q) f ≡ none
      others u f m n = elim (Option-cases (last_of_key (make_cmp_key q) f)) [
        | inl absent ↦ absent
        | inr (z, e) ↦
            let (own, key) = last_of_key_sound (make_cmp_key q) z f e in
            let z_in = subst (Mem z) (group-Mem ps u f (there (u, f) m)) own in
            absurd (
              n (
                sym (table-of z u ps z_in)
                ∙ (apart z q (Mem-of_table z u ps z_in)
                    (Mem-of_table q q.table ps (Survives-Mem q (of_table q.table ps) s))
                    (ap (λ (x : CmpKey). x.0) key)).0))
      ]

  -- What is expected under a key is a point with this key that survives.
  pub Survives-of_expected :
      (k : CmpKey) (q : Point)
      → BTreeMap.get (extend_all groups []) k ≡ some q
      → Survives q (of_table q.table ps) × (make_cmp_key q ≡ k)
  unfolding BTreeMap.get
  Survives-of_expected k q e = elim (extend_all-HasLast groups [] k q e) [
    | inr found ↦ absurd (none_given q found)
    | inl i ↦
        let (own, key) = last_of_key_sound k q i.group i.last in
        let group = group-Mem ps i.table i.group (there (i.table, i.group) i.member) in
        let own' = subst (Mem q) group own in
        let table = table-of q i.table ps own' in
        let last =
          ap (last_of_key (make_cmp_key q)) (ap (λ t. of_table t ps) table ∙ sym group)
          ∙ ap (λ x. last_of_key x i.group) key
          ∙ i.last in
        (
          last_point-Survives (make_tags_key q.tags) q.timestamp q (of_table q.table ps)
              (sym (last_of-table q (of_table q.table ps) (of_table-All q.table ps)) ∙ last),
          key,
        )
  ]
