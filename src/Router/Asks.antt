-- ===== src/Router/Asks.antt =====
-- What `route` asks the server for.
use mathlib.Core.List.{mem-cons, not-mem-nil}
use mathlib.Core.List.Perm
use mathlib.Core.Logic.Or
use horaedb_client_rs.Prelude.{
  bool_set, ℕ, ◌≡◌, refl, sym, ◌∙◌, ◌↔◌, true, some, List, [], ◌∷◌, Mem, Str, str_eq, ◌==◌,
  str_eqb_iff, if◌then◌else◌, is_some, Bool-cases, inl, inr,
}
use mathlib.Core.Bool.{false≢true}
use horaedb_client_rs.HashMap
use horaedb_client_rs.HashMap.{Arrangement}
use horaedb_client_rs.Router.{RouterImpl, Misses, first_pass, tables_of, route_request}
use horaedb_client_rs.Router.Expected.{expects, is_some-first_pass}

-- A table is among the misses if it is one of their keys.
mem-tables_of :
    (misses : Misses) (t : Str) → Mem t (tables_of misses) ↔ (is_some (HashMap.get misses t) ≡ true)
unfolding HashMap.get
mem-tables_of [] t = ((λ m. absurd (not-mem-nil m)), λ e. absurd (false≢true e))
mem-tables_of ((u, i) ∷ misses) t =
    let rest = mem-tables_of misses t in (there (λ m. rest.0 m), back (λ e. rest.1 e))
  where
    there :
        (Mem t (tables_of misses) → is_some (HashMap.get misses t) ≡ true)
        → Mem t (u ∷ tables_of misses)
        → is_some (if u == t then some i else HashMap.get misses t) ≡ true
    there rest m = elim (Bool-cases (u == t)) [
      | inl same ↦ rw same refl
      | inr other ↦
          Or.elim (bool_set _ _) (mem-cons.0 m)
            (λ e. absurd (false≢true (sym other ∙ (str_eqb_iff u t).1 (sym e))))
            (λ n. rw other (rest n))
    ]

    back :
        (is_some (HashMap.get misses t) ≡ true → Mem t (tables_of misses))
        → is_some (if u == t then some i else HashMap.get misses t) ≡ true
        → Mem t (u ∷ tables_of misses)
    back rest e = elim (Bool-cases (u == t)) [
      | inl same ↦ mem-cons.1 (Or.inl (sym ((str_eqb_iff u t).0 same)))
      | inr other ↦ mem-cons.1 (Or.inr (rest (rw other at e)))
    ]

-- Whatever the order in which the misses are read, the request asks for a table exactly if the table
-- was given and is not cached.
pub route_request-asks :
    (h : Arrangement (Str × ℕ)) (r : RouterImpl) (tables : List Str) (database : Str) (t : Str)
    → Mem t (route_request h r tables database).tables ↔ (expects r tables t ≡ true)
unfolding route_request
route_request-asks h r tables database t =
    let misses = (first_pass r tables).1 in
    let same : Mem t (tables_of (h.arrange misses)) ↔ Mem t (tables_of misses) =
      Perm.mem_iff (Perm.map (λ (m : Str × ℕ). m.0) (h.arrange-perm misses)) in
    let keys = mem-tables_of misses t in
    (
      (λ m. sym (is_some-first_pass r tables t) ∙ keys.0 (same.0 m)),
      λ e. same.1 (keys.1 (is_some-first_pass r tables t ∙ e)),
    )
