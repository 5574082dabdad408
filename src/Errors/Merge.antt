-- ===== src/Errors/Merge.antt =====
-- `From<Vec<(Vec<String>, Result<Response>)>> for RouteBasedWriteError`.
use horaedb_client_rs.Prelude.{
  ℕ, ◌+◌, ◌%◌, ◌^◌, ◌≡◌, refl, ap, sym, ◌∙◌, Bool, true, false, List, [], ◌∷◌, ◌++◌, arith, Str,
}
use mathlib.Core.List.{append_assoc, append-nil}
use horaedb_client_rs.Errors.{
  WriteResponse, Error, RouteBasedWriteError, write_error, Errors, no_errors, also, Result, ok, err,
}

-- Totals as `u32` sums.
abbrev total : ℕ → ℕ → WriteResponse
total s f = record { success = s % 2 ^ 32; failed = f % 2 ^ 32 }

same_total :
    (a b c d : ℕ) → a % 2 ^ 32 ≡ b % 2 ^ 32 → c % 2 ^ 32 ≡ d % 2 ^ 32 → total a c ≡ total b d
same_total a b c d x y = cc

module _ {X : Type 0} where
  abbrev pub push : Errors X → List Str → Error X → Errors X
  push no_errors tables e = also tables e no_errors
  push (also ts f es) tables e = also ts f (push es tables e)

  -- The loop. The totals are `u32` sums, which wrap in a release build.
  unfoldable pub merge_from :
      RouteBasedWriteError X → List (List Str × Result X WriteResponse) → RouteBasedWriteError X
  merge_from acc [] = acc
  merge_from (write_error done sums errors) ((tables, ok resp) ∷ rest) =
      merge_from
        (write_error (done ++ tables)
          (record {
            success = (sums.success + resp.success) % 2 ^ 32;
            failed = (sums.failed + resp.failed) % 2 ^ 32;
          })
          errors)
        rest
  merge_from (write_error done sums errors) ((tables, err e) ∷ rest) =
      merge_from (write_error done sums (push errors tables e)) rest

  unfoldable pub merge : List (List Str × Result X WriteResponse) → RouteBasedWriteError X
  merge = merge_from (write_error [] (record { success = 0; failed = 0 }) no_errors)

  unfoldable pub all_ok : RouteBasedWriteError X → Bool
  all_ok (write_error ts r no_errors) = true
  all_ok (write_error ts r (also us e es)) = false

  -- What the results say, one field at a time.
  abbrev pub ok_tables : List (List Str × Result X WriteResponse) → List Str
  ok_tables [] = []
  ok_tables ((ts, ok r) ∷ rest) = ts ++ ok_tables rest
  ok_tables ((ts, err e) ∷ rest) = ok_tables rest

  abbrev pub successes : List (List Str × Result X WriteResponse) → ℕ
  successes [] = 0
  successes ((ts, ok r) ∷ rest) = r.success + successes rest
  successes ((ts, err e) ∷ rest) = successes rest

  abbrev pub failures : List (List Str × Result X WriteResponse) → ℕ
  failures [] = 0
  failures ((ts, ok r) ∷ rest) = r.failed + failures rest
  failures ((ts, err e) ∷ rest) = failures rest

  abbrev pub errors_of : List (List Str × Result X WriteResponse) → Errors X
  errors_of [] = no_errors
  errors_of ((ts, ok r) ∷ rest) = errors_of rest
  errors_of ((ts, err e) ∷ rest) = also ts e (errors_of rest)

  abbrev pub every_ok : List (List Str × Result X WriteResponse) → Bool
  every_ok [] = true
  every_ok ((ts, ok r) ∷ rest) = every_ok rest
  every_ok ((ts, err e) ∷ rest) = false

  abbrev join : Errors X → Errors X → Errors X
  join no_errors fs = fs
  join (also ts e es) fs = also ts e (join es fs)

  join-push :
      (es : Errors X) (ts : List Str) (e : Error X) (fs : Errors X)
      → join (push es ts e) fs ≡ join es (also ts e fs)
  join-push no_errors ts e fs = refl
  join-push (also us f es) ts e fs = ap (also us f) (join-push es ts e fs)

  join-no_errors : (es : Errors X) → join es no_errors ≡ es
  join-no_errors no_errors = refl
  join-no_errors (also ts e es) = ap (also ts e) (join-no_errors es)

  same_parts :
      (ts us : List Str) (s t f g : ℕ) (es fs : Errors X)
      → ts ≡ us
      → s % 2 ^ 32 ≡ t % 2 ^ 32
      → f % 2 ^ 32 ≡ g % 2 ^ 32
      → es ≡ fs
      → write_error ts (total s f) es ≡ write_error us (total t g) fs
  same_parts ts us s t f g es fs a b c d = cc

  merge_from_lem :
      (ts : List Str) (s f : ℕ) (es : Errors X) (rs : List (List Str × Result X WriteResponse))
      → merge_from (write_error ts (total s f) es) rs
        ≡ write_error
            (ts ++ ok_tables rs)
            (total (s + successes rs) (f + failures rs))
            (join es (errors_of rs))
  unfolding merge_from
  merge_from_lem ts s f es [] =
      same_parts _ _ s (s + 0) f (f + 0) _ _ (sym (append-nil ts)) (omega arith) (omega arith)
        (sym (join-no_errors es))
  merge_from_lem ts s f es ((us, ok r) ∷ rs) =
      ap (λ (t : WriteResponse). merge_from (write_error (ts ++ us) t es) rs)
        (same_total (s % 2 ^ 32 + r.success) (s + r.success) (f % 2 ^ 32 + r.failed) (f + r.failed)
          (omega arith) (omega arith))
      ∙ merge_from_lem (ts ++ us) (s + r.success) (f + r.failed) es rs
      ∙ same_parts _ _ (s + r.success + successes rs) (s + (r.success + successes rs))
          (f + r.failed + failures rs) (f + (r.failed + failures rs)) _ _ (append_assoc ts us _)
          (omega arith) (omega arith) refl
  merge_from_lem ts s f es ((us, err e) ∷ rs) =
      merge_from_lem ts s f (push es us e) rs
      ∙ ap (write_error (ts ++ ok_tables rs) (total (s + successes rs) (f + failures rs)))
          (join-push es us e (errors_of rs))

  -- The merge keeps all there is: the tables of the successful writes in order, the totals of their
  -- responses as `u32` sums, and the failed writes in order, each with its tables and its error.
  pub merge-parts :
      (rs : List (List Str × Result X WriteResponse))
      → merge rs
        ≡ write_error
            (ok_tables rs)
            (record { success = successes rs % 2 ^ 32; failed = failures rs % 2 ^ 32 })
            (errors_of rs)
  unfolding merge
  merge-parts rs =
      merge_from_lem [] 0 0 no_errors rs
      ∙ same_parts _ _ (0 + successes rs) (successes rs) (0 + failures rs) (failures rs) _ _ refl
          (omega arith) (omega arith) refl

  every_ok-errors_of :
      (ts : List Str) (t : WriteResponse) (rs : List (List Str × Result X WriteResponse))
      → all_ok (write_error ts t (errors_of rs)) ≡ every_ok rs
  unfolding all_ok
  every_ok-errors_of ts t [] = refl
  every_ok-errors_of ts t ((us, ok r) ∷ rs) = every_ok-errors_of ts t rs
  every_ok-errors_of ts t ((us, err e) ∷ rs) = refl

  -- The merged result counts as a success exactly if every single write succeeded.
  pub all_ok-merge :
      (rs : List (List Str × Result X WriteResponse)) → all_ok (merge rs) ≡ every_ok rs
  all_ok-merge rs = ap all_ok (merge-parts rs) ∙ every_ok-errors_of (ok_tables rs) _ rs
