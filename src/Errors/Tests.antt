-- ===== src/Errors/Tests.antt =====
-- The merge of three results.
use horaedb_client_rs.Prelude.{◌≡◌, List, [], ◌∷◌, Str, bytes}
use horaedb_client_rs.Errors.{WriteResponse, Error, write_error, no_errors, also, Result, ok, err}
use horaedb_client_rs.Errors.Merge.{merge, merge-parts}

abbrev sample_results : List (List Str × Result Unit WriteResponse)
sample_results =
    (bytes "a" ∷ [], ok (record { success = 4294967295; failed = 1 }))
    ∷ (bytes "b" ∷ bytes "c" ∷ [], err Error.no_database)
    ∷ (bytes "d" ∷ [], ok (record { success = 2; failed = 3 }))
    ∷ []

merge-parts_at_sample :
    merge sample_results
    ≡ write_error
        (bytes "a" ∷ bytes "d" ∷ [])
        (record { success = 1; failed = 4 })
        (also (bytes "b" ∷ bytes "c" ∷ []) Error.no_database no_errors)
merge-parts_at_sample = merge-parts sample_results
