-- ===== src/Router/Tasks/Kept.antt =====
-- What a step of one task keeps.
use horaedb_client_rs.Prelude.{
  ℕ, suc, ◌+◌, ◌≡◌, ◌≢◌, refl, ap, sym, ◌∙◌, true, none, some, List, [], ◌∷◌, ◌++◌, Str, str_eq,
  ◌==◌, arith, get_elem?, Bool-cases, inl, inr,
}
use horaedb_client_rs.Endpoint.{Endpoint, EndpointPb, of_pb, endpoint_eq, endpoint_eqb_iff}
use horaedb_client_rs.Errors.{Result}
use horaedb_client_rs.HashMap
use horaedb_client_rs.HashMap.Laws.{get-insert, get-remove}
use horaedb_client_rs.Rpc.{Route}
use horaedb_client_rs.Router.{Cache, Targets, Misses}
use horaedb_client_rs.Router.Tasks.{Shared, Pc, Move}
use horaedb_client_rs.Router.Tasks.Move.{
  call, hit, miss, ask, fail, hear, skip, unknown, store, done, evict, remove, evicted, leave,
}
use horaedb_client_rs.Router.Tasks.Heard.{
  is_heard, is_heard-append_left, is_heard-append_right, AllHeard, SlotsOk, SlotsOk-replicate,
  SlotsOk-wider, SlotsOk-set, MissesOk, MissesOk-insert,
}

-- What is cached for a table, the server has answered for it.
abbrev pub CacheOk : Cache → List Route → Type 0
CacheOk cache l = (t : Str) (e : Endpoint) → HashMap.get cache t ≡ some e → is_heard t e l ≡ true

-- A task in the first loop.
pub record FindingOk (d : Endpoint) (l : List Route) (tables : List Str) (idx : ℕ) (left : List Str)
    (targets : Targets) (misses : Misses) : Type 0 where
  pub suffix : (k : ℕ) → get_elem? left k ≡ get_elem? tables (idx + k)
  pub places : SlotsOk d l tables targets
  pub missing : MissesOk tables misses

-- The variables of a task.
abbrev pub PcOk : {X : Type 0} → Endpoint → List Route → Pc X → Type 0
PcOk d l Pc.idle = Unit
PcOk d l (Pc.finding tables idx left targets misses) = FindingOk d l tables idx left targets misses
PcOk d l (Pc.waiting tables targets misses) = SlotsOk d l tables targets × MissesOk tables misses
PcOk d l (Pc.filling tables routes targets misses) =
    SlotsOk d l tables targets × (MissesOk tables misses × AllHeard routes l)
PcOk d l (Pc.returned tables (Result.ok targets)) = SlotsOk d l tables targets
PcOk d l (Pc.returned tables (Result.err e)) = Unit
PcOk d l (Pc.evicting tables) = Unit

pub PcOk-wider :
    (X : Type 0) (d : Endpoint) (l k : List Route) (p : Pc X)
    → AllHeard l k
    → PcOk d l p
    → PcOk d k p
PcOk-wider X d l k Pc.idle w h = tt
PcOk-wider X d l k (Pc.finding tables idx left targets misses) w h = record {
  suffix = h.suffix;
  places = SlotsOk-wider d l k tables targets w h.places;
  missing = h.missing;
}
PcOk-wider X d l k (Pc.waiting tables targets misses) w h =
    (SlotsOk-wider d l k tables targets w h.0, h.1)
PcOk-wider X d l k (Pc.filling tables routes targets misses) w h =
    (SlotsOk-wider d l k tables targets w h.0, (h.1.0, λ t e x. w t e (h.1.1 t e x)))
PcOk-wider X d l k (Pc.returned tables (Result.ok targets)) w h =
    SlotsOk-wider d l k tables targets w h
PcOk-wider X d l k (Pc.returned tables (Result.err e)) w h = tt
PcOk-wider X d l k (Pc.evicting tables) w h = tt

-- What a step of a task keeps.
pub record Kept (X : Type 0) (d : Endpoint) (m n : Shared) (p : Pc X) : Type 0 where
  pub cached : CacheOk n.cache n.answered
  pub task : PcOk d n.answered p
  pub grown : AllHeard m.answered n.answered

as_before :
    (X : Type 0) (d : Endpoint) (m : Shared) (p : Pc X)
    → CacheOk m.cache m.answered
    → PcOk d m.answered p
    → Kept X d m m p
as_before X d m p c h = record { cached = c; task = h; grown = λ t e x. x }

insert-CacheOk :
    (cache : Cache) (l : List Route) (t : Str) (e : Endpoint)
    → is_heard t e l ≡ true
    → CacheOk cache l
    → CacheOk (HashMap.insert t e cache) l
insert-CacheOk cache l t e heard c u f h = elim (Bool-cases (t == u)) [
  | inl same ↦ ground (arith, get-insert cache t u e, str_eq.same_iff t u)
  | inr other ↦ c u f (rw (get-insert cache t u e, other) at h)
]

remove-CacheOk :
    (cache : Cache) (l : List Route) (t : Str)
    → CacheOk cache l
    → CacheOk (HashMap.remove t cache) l
remove-CacheOk cache l t c u f h = elim (Bool-cases (t == u)) [
  | inl same ↦ absurd (none_given f (rw (get-remove cache t u, same) at h))
  | inr other ↦ c u f (rw (get-remove cache t u, other) at h)
]
  where
    none_given : (x : Endpoint) → none ≢ some x
    none_given x e = cc

route-is_heard :
    (route : Route) (routes l : List Route) (pb : EndpointPb)
    → route.endpoint ≡ some pb
    → AllHeard (route ∷ routes) l
    → is_heard route.table (of_pb pb) l ≡ true
route-is_heard route routes l pb given all = all route.table (of_pb pb) (
    rw ((str_eq.same_iff route.table route.table).1 refl, given)
      (rw ((endpoint_eqb_iff (of_pb pb) (of_pb pb)).1 refl) refl))

tail-AllHeard :
    (route : Route) (routes l : List Route) → AllHeard (route ∷ routes) l → AllHeard routes l
tail-AllHeard route routes l all t e h = all t e (is_heard-append_right t e (route ∷ []) routes h)

next_suffix :
    (tables left : List Str) (idx : ℕ) (t : Str)
    → ((k : ℕ) → get_elem? (t ∷ left) k ≡ get_elem? tables (idx + k))
    → (k : ℕ) → get_elem? left k ≡ get_elem? tables (suc idx + k)
next_suffix tables left idx t h k = h (suc k) ∙ ap (get_elem? tables) (omega arith)

place_of :
    (tables left : List Str) (idx : ℕ) (t : Str)
    → ((k : ℕ) → get_elem? (t ∷ left) k ≡ get_elem? tables (idx + k))
    → get_elem? tables idx ≡ some t
place_of tables left idx t h = ap (get_elem? tables) (omega arith) ∙ sym (h 0)

no_misses-MissesOk : (tables : List Str) → MissesOk tables []
unfolding HashMap.get
no_misses-MissesOk tables t i e = cc

pub Move-Kept :
    {X : Type 0} {d : Endpoint} {m n : Shared} {p q : Pc X}
    → Move X d m p n q
    → CacheOk m.cache m.answered
    → PcOk d m.answered p
    → Kept X d m n q
Move-Kept {X} {d} {m} (call tables) c h = as_before X d m _ c (record {
  suffix = λ k. ap (get_elem? tables) (omega arith);
  places = SlotsOk-replicate d m.answered tables;
  missing = no_misses-MissesOk tables;
})
Move-Kept {X} {d} {m} {p = Pc.finding tables idx (t ∷ left) targets misses} (hit e cached) c h =
    as_before X d m _ c (record {
      suffix = next_suffix tables left idx t h.suffix;
      places =
          SlotsOk-set d m.answered tables targets idx t e (place_of tables left idx t h.suffix)
            (c t e cached) h.places;
      missing = h.missing;
    })
Move-Kept {X} {d} {m} {p = Pc.finding tables idx (t ∷ left) targets misses} (miss absent) c h =
    as_before X d m _ c (record {
      suffix = next_suffix tables left idx t h.suffix;
      places = h.places;
      missing = MissesOk-insert tables misses t idx (place_of tables left idx t h.suffix) h.missing;
    })
Move-Kept {X} {d} {m} ask c h = as_before X d m _ c (h.places, h.missing)
Move-Kept {X} {d} {m} (fail e) c h = as_before X d m _ c tt
Move-Kept {X} {d} {m} {p = Pc.waiting tables targets misses} (hear resp) c h = record {
  cached = λ t e x. is_heard-append_right t e resp.routes m.answered (c t e x);
  task = (
    SlotsOk-wider d m.answered (resp.routes ++ m.answered) tables targets
        (λ t e x. is_heard-append_right t e resp.routes m.answered x) h.0,
    (h.1, λ t e x. is_heard-append_left t e resp.routes m.answered x),
  );
  grown = λ t e x. is_heard-append_right t e resp.routes m.answered x;
}
Move-Kept {X} {d} {m} {p = Pc.filling tables (route ∷ routes) targets misses} (skip absent) c h =
    as_before X d m _ c (h.0, (h.1.0, tail-AllHeard route routes m.answered h.1.1))
Move-Kept {X} {d} {m} (unknown pb given absent) c h = as_before X d m _ c tt
Move-Kept {X} {d} {m} {p = Pc.filling tables (route ∷ routes) targets misses}
      (store pb idx given known) c h =
    let heard = route-is_heard route routes m.answered pb given h.1.1 in
    record {
      cached = insert-CacheOk m.cache m.answered route.table (of_pb pb) heard c;
      task = (
        SlotsOk-set d m.answered tables targets idx route.table (of_pb pb)
            (h.1.0 route.table idx known) heard h.0,
        (h.1.0, tail-AllHeard route routes m.answered h.1.1),
      );
      grown = λ t e x. x;
    }
Move-Kept {X} {d} {m} done c h = as_before X d m _ c h.0
Move-Kept {X} {d} {m} (evict tables) c h = as_before X d m _ c tt
Move-Kept {X} {d} {m} {p = Pc.evicting (t ∷ tables)} remove c h = record {
  cached = remove-CacheOk m.cache m.answered t c;
  task = tt;
  grown = λ u e x. x;
}
Move-Kept {X} {d} {m} evicted c h = as_before X d m _ c tt
Move-Kept {X} {d} {m} (leave result) c h = as_before X d m _ c tt
