-- ===== src/Router/Tasks/Invariant.antt =====
-- What holds however the tasks of a router interleave.
use horaedb_client_rs.Prelude.{ℕ, ◌≡◌, subst, List, Str, str_eq, eqb, Bool-cases, inl, inr}
use horaedb_client_rs.Endpoint.{Endpoint, endpoint_eq}
use horaedb_client_rs.Errors.{Result}
use horaedb_client_rs.HashMap
use horaedb_client_rs.Router.{Targets}
use horaedb_client_rs.Router.Tasks.{Pc, System, Step, pick, Reach, start, later}
use horaedb_client_rs.Router.Tasks.Heard.{SlotsOk}
use horaedb_client_rs.Router.Tasks.Kept.{CacheOk, PcOk, PcOk-wider, Kept, Move-Kept}

-- The cache and every task of a system.
record SystemOk {X : Type 0} (d : Endpoint) (s : System X) : Type 0 where
  cached : CacheOk s.shared.cache s.shared.answered
  tasks : (i : ℕ) → PcOk d s.shared.answered (s.pc i)

Step-SystemOk :
    {X : Type 0} {d : Endpoint} {s t : System X} → Step X d s t → SystemOk d s → SystemOk d t
Step-SystemOk {X} {d} {s} (pick i {m} {p} move) h = record {
  cached = kept.cached;
  tasks = λ j. elim (Bool-cases (eqb i j)) [
    | inl same ↦ rw same kept.task
    | inr other ↦
        rw other (PcOk-wider X d s.shared.answered m.answered (s.pc j) kept.grown (h.tasks j))
  ];
}
  where
    kept : Kept X d s.shared m p
    kept = Move-Kept move h.cached (h.tasks i)

Reach-SystemOk : {X : Type 0} {d : Endpoint} {s : System X} → Reach X d s → SystemOk d s
unfolding HashMap.get
Reach-SystemOk start = record { cached = λ t e x. cc; tasks = λ i. tt }
Reach-SystemOk (later r step) = Step-SystemOk step (Reach-SystemOk r)

-- However calls of `route` and `evict` interleave, and whatever the server answers: a call of `route` that
-- succeeds returns one endpoint for each table, in order, and each is the default endpoint or one that the
-- server has answered for that table, never one of another table; and so is an endpoint that is cached.
pub returned-SlotsOk :
    {X : Type 0} {d : Endpoint} {s : System X}
    → Reach X d s
    → (i : ℕ) (tables : List Str) (targets : Targets)
    → s.pc i ≡ Pc.returned tables (Result.ok targets)
    → SlotsOk d s.shared.answered tables targets × CacheOk s.shared.cache s.shared.answered
returned-SlotsOk {d} {s} r i tables targets e =
    let ok = Reach-SystemOk r in (subst (PcOk d s.shared.answered) e (ok.tasks i), ok.cached)
