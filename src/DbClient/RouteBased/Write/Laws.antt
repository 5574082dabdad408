-- ===== src/DbClient/RouteBased/Write/Laws.antt =====
-- Which routes a write evicts, what it returns, and that its clients stay the ones of their endpoints.
use horaedb_client_rs.Prelude.{
  ◌%◌, ◌^◌, ◌≡◌, refl, ap, sym, ◌∙◌, Bool, false, ◌&&◌, ◌||◌, none, List, [], ◌∷◌, ◌++◌, Str,
  str_eq, arith, if◌then◌else◌, Bool-cases, inl, inr,
}
use horaedb_client_rs.DbClient.RouteBased.Write.{Results, evicts, merged}
use horaedb_client_rs.Errors.{Error, WriteResponse, write_error, Result}
use horaedb_client_rs.Errors.Merge.{
  merge, all_ok, every_ok, ok_tables, errors_of, successes, failures, merge-parts, all_ok-merge,
}
use horaedb_client_rs.HashMap
use horaedb_client_rs.Router.{RouterImpl, evict}
use horaedb_client_rs.Router.Laws.{get-evict}
use horaedb_client_rs.Router.Places.{occurs}
use horaedb_client_rs.Util.{should_refresh}

-- Whether a result is an error of the server that says that a table is not there.
abbrev pub outdated : {X : Type 0} → Result X WriteResponse → Bool
outdated (Result.err (Error.server e)) = should_refresh e.code e.msg
outdated _ = false

-- Whether a table is of a part with such a result.
abbrev pub of_outdated : {X : Type 0} → Results X → Str → Bool
of_outdated [] t = false
of_outdated ((tables, result) ∷ results) t =
    (outdated result && occurs t tables) || of_outdated results t

-- The totals of all responses.
abbrev pub totals : {X : Type 0} → Results X → WriteResponse
totals results = record { success = successes results % 2 ^ 32; failed = failures results % 2 ^ 32 }

occurs-append : (t : Str) (us vs : List Str) → occurs t (us ++ vs) ≡ (occurs t us || occurs t vs)
occurs-append t [] vs = refl
occurs-append t (u ∷ us) vs = ground (arith, occurs-append t us vs)

module _ (X : Type 0) where
  occurs-evicts :
      (results : Results X) (t : Str) → occurs t (evicts results) ≡ of_outdated results t
  unfolding evicts
  occurs-evicts [] t = refl
  occurs-evicts ((tables, Result.ok resp) ∷ results) t = occurs-evicts results t
  occurs-evicts ((tables, Result.err (Error.server e)) ∷ results) t =
      elim (Bool-cases (should_refresh e.code e.msg)) [
        | inl old ↦ rw old (
            occurs-append t tables (evicts results)
            ∙ ap (λ b. occurs t tables || b) (occurs-evicts results t))
        | inr fresh ↦ rw fresh (occurs-evicts results t)
      ]
  occurs-evicts ((tables, Result.err _) ∷ results) t = occurs-evicts results t

  -- After the eviction that ends a write, a table has no cached route if it was in a part whose server
  -- answered that a table is not there, and every other table is routed as before.
  pub get-evict-evicts :
      (r : RouterImpl) (results : Results X) (t : Str)
      → HashMap.get (evict r (evicts results)).cache t
        ≡ (if of_outdated results t then none else HashMap.get r.cache t)
  get-evict-evicts r results t =
      get-evict r (evicts results) t
      ∙ ap (λ b. if b then none else HashMap.get r.cache t) (occurs-evicts results t)

  -- What a write returns: the totals of all responses as `u32` sums, if every part was written; or else
  -- an error with the tables and totals of the parts that were, and each error with its tables.
  pub merged-merge :
      (results : Results X)
      → merged (merge results) ≡ (
          if every_ok results
          then Result.ok (totals results)
          else Result.err (
              Error.route_based
                (write_error (ok_tables results) (totals results) (errors_of results))))
  merged-merge results =
      ap merged (merge-parts results)
      ∙ ap
          (λ (b : Bool).
            if b
            then Result.ok (totals results)
            else Result.err (
                Error.route_based
                  (write_error (ok_tables results) (totals results) (errors_of results))))
          (ap all_ok (sym (merge-parts results)) ∙ all_ok-merge results)
