-- ===== src/Router/Tasks/Rest.antt =====
-- A call comes to its end however the steps of other tasks lie between its own.
use horaedb_client_rs.Prelude.{
  ℕ, suc, ◌+◌, ◌≤◌, ◌<◌, ◌≡◌, true, List, [], ◌∷◌, Str, str_eq, length, arith, Option-cases, inl,
  inr,
}
use horaedb_client_rs.Endpoint.{Endpoint}
use horaedb_client_rs.Errors.{Result}
use horaedb_client_rs.HashMap
use horaedb_client_rs.Rpc.{Route, RouteResponse}
use horaedb_client_rs.Router.{Targets, Misses}
use horaedb_client_rs.Router.Tasks.{Shared, Pc, Move}
use horaedb_client_rs.Router.Tasks.Move.{
  call, hit, miss, ask, fail, hear, skip, unknown, store, done, evict, remove, evicted, leave,
}
use horaedb_client_rs.Router.Tasks.Alone.{works, heard_shared, heard_state, told}

-- How many steps a loop has left at most.
abbrev pub steps_left : {X : Type 0} → Pc X → ℕ
steps_left Pc.idle = 0
steps_left (Pc.finding tables idx left targets misses) = suc (length left)
steps_left (Pc.waiting tables targets misses) = 0
steps_left (Pc.filling tables routes targets misses) = suc (length routes)
steps_left (Pc.returned tables result) = 0
steps_left (Pc.evicting tables) = suc (length tables)

-- `k` steps of a task inside its loops. Before each of them, other tasks may have made anything of what
-- is shared.
pub data Paced (X : Type 0) (d : Endpoint) : Pc X → ℕ → Pc X → Type 0 where
  rests : (p : Pc X) → Paced X d p 0 p
  moves :
      {k : ℕ} {p q r : Pc X} (m n : Shared)
      → works p ≡ true
      → Move X d m p n q
      → Paced X d q k r
      → Paced X d p (suc k) r

module _ (X : Type 0) (d : Endpoint) where
  -- Each step inside a loop brings its end nearer.
  Move-steps_left :
      (m n : Shared) (p q : Pc X) → works p ≡ true → Move X d m p n q → steps_left q < steps_left p
  Move-steps_left m n p q w (call tables) = cc
  Move-steps_left m n p q w (hit e c) = omega arith
  Move-steps_left m n p q w (miss c) = omega arith
  Move-steps_left m n p q w ask = omega arith
  Move-steps_left m n p q w (fail e) = cc
  Move-steps_left m n p q w (hear resp) = cc
  Move-steps_left m n p q w (skip e) = omega arith
  Move-steps_left m n p q w (unknown pb e f) = omega arith
  Move-steps_left m n p q w (store pb idx e f) = omega arith
  Move-steps_left m n p q w done = omega arith
  Move-steps_left m n p q w (evict tables) = cc
  Move-steps_left m n p q w remove = omega arith
  Move-steps_left m n p q w evicted = omega arith
  Move-steps_left m n p q w (leave result) = cc

  Paced-steps_left : (k : ℕ) (p q : Pc X) → Paced X d p k q → k + steps_left q ≤ steps_left p
  Paced-steps_left k p q (rests x) = omega arith
  Paced-steps_left k p q (moves {k = j} {q = x} m n w a rest) =
      omega (arith, Move-steps_left m n p x w a, Paced-steps_left j x q rest)

  -- A step that a task can take.
  pub record CanMove (m : Shared) (p : Pc X) : Type 0 where
    pub shared : Shared
    pub state : Pc X
    pub move : Move X d m p shared state

  -- Where a task stands: it is at rest, or it waits for the server and can hear this answer, which ends
  -- its call or starts its second loop, or it is in a loop and can take a step.
  abbrev pub GoesOn : Shared → Result X RouteResponse → Pc X → Type 0
  GoesOn m answer Pc.idle = Unit
  GoesOn m answer (Pc.returned tables result) = Unit
  GoesOn m answer (Pc.waiting tables targets misses) =
      Move X d m (Pc.waiting tables targets misses) (heard_shared m answer)
        (heard_state tables targets misses answer)
  GoesOn m answer p = CanMove m p

  filling-CanMove :
      (m : Shared) (tables : List Str) (routes : List Route) (targets : Targets) (misses : Misses)
      → CanMove m (Pc.filling tables routes targets misses)
  filling-CanMove m tables [] targets misses = record { shared = _; state = _; move = done }
  filling-CanMove m tables (reply ∷ routes) targets misses = elim (Option-cases reply.endpoint) [
    | inl skipped ↦ record { shared = _; state = _; move = skip skipped }
    | inr (pb, given) ↦ elim (Option-cases (HashMap.get misses reply.table)) [
      | inl absent ↦ record { shared = _; state = _; move = unknown pb given absent }
      | inr (idx, known) ↦ record { shared = _; state = _; move = store pb idx given known }
    ]
  ]

  finding-CanMove :
      (m : Shared) (tables left : List Str) (idx : ℕ) (targets : Targets) (misses : Misses)
      → CanMove m (Pc.finding tables idx left targets misses)
  finding-CanMove m tables [] idx targets misses = record { shared = _; state = _; move = ask }
  finding-CanMove m tables (t ∷ left) idx targets misses =
      elim (Option-cases (HashMap.get m.cache t)) [
        | inl absent ↦ record { shared = _; state = _; move = miss absent }
        | inr (e, cached) ↦ record { shared = _; state = _; move = hit e cached }
      ]

  pub task-GoesOn : (m : Shared) (answer : Result X RouteResponse) (p : Pc X) → GoesOn m answer p
  task-GoesOn m answer Pc.idle = tt
  task-GoesOn m answer (Pc.finding tables idx left targets misses) =
      finding-CanMove m tables left idx targets misses
  task-GoesOn m answer (Pc.waiting tables targets misses) = told X d m tables targets misses answer
  task-GoesOn m answer (Pc.filling tables routes targets misses) =
      filling-CanMove m tables routes targets misses
  task-GoesOn m answer (Pc.returned tables result) = tt
  task-GoesOn m answer (Pc.evicting []) = record { shared = _; state = _; move = evicted }
  task-GoesOn m answer (Pc.evicting (t ∷ tables)) = record { shared = _; state = _; move = remove }

  -- No task is ever stuck, and no loop runs on: whatever other tasks make of the cache between its steps,
  -- and wherever the task stands, it takes no more steps than its loop has left, and where it then stands
  -- it is at rest, or it can hear the answer of the server, whatever that is, or it can take a step.
  pub task-ComesToRest :
      (k : ℕ) (p q : Pc X) (m : Shared) (answer : Result X RouteResponse)
      → Paced X d p k q
      → (k + steps_left q ≤ steps_left p) × GoesOn m answer q
  task-ComesToRest k p q m answer run = (Paced-steps_left k p q run, task-GoesOn m answer q)
