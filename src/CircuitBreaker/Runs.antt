-- ===== src/CircuitBreaker/Runs.antt =====
-- Sequences of calls to `RedisCircuitBreaker`, for any upstreams, with time passing between them.
use rate_guardian.Base.{
  ℕ, ◌≡◌, refl, String, Bool, Option, none, some, List, [], ◌∷◌, ◌==◌, eq_iff, Bool-cases,
  if◌then◌else◌, inl, inr, subst,
}
use rate_guardian.Redis.{Redis}
use rate_guardian.CircuitBreaker.{Config, can_request, record_success, record_failure}
use rate_guardian.CircuitBreaker.Machine.{Breaker, ask, succeed, fail}
use rate_guardian.CircuitBreaker.Stored.{Holds, Frames, Frames-success, Frames-Holds, elapse-Holds}
use rate_guardian.CircuitBreaker.Refinement.{
  can_request-Holds, record_success-Holds, record_failure-Holds,
}

-- A call for an upstream, with the reading of the clock, or time that passes.
pub data Event : Type 0 where
  asks fails : String → ℕ → Event
  succeeds : String → Event
  passes : ℕ → Event

-- One state machine for each upstream.
abbrev pub Fleet : Type 0
Fleet = String → Breaker

abbrev pub update : Fleet → String → Breaker → Fleet
update f u b v = if u == v then b else f v

-- The answers that the machines give to `can_request`, in order.
unfoldable pub run_fleet : Config → Fleet → List Event → List Bool × Fleet
run_fleet c f [] = ([], f)
run_fleet c f (asks u now ∷ es) =
    let (answer, b) = ask (f u) now in
    let (rest, g) = run_fleet c (update f u b) es in (answer ∷ rest, g)
run_fleet c f (fails u now ∷ es) = run_fleet c (update f u (fail c (f u) now)) es
run_fleet c f (succeeds u ∷ es) = run_fleet c (update f u (succeed (f u))) es
run_fleet c f (passes d ∷ es) = run_fleet c f es

abbrev and_then {ℓ κ} : {A : Type ℓ} {B : Type κ} → Option A → (A → Option B) → Option B
and_then none k = none
and_then (some a) k = k a

abbrev push_answer {ℓ} : {S : Type ℓ} → Bool → Option (List Bool × S) → Option (List Bool × S)
push_answer b none = none
push_answer b (some (bs, s)) = some (b ∷ bs, s)

module _ (r : Redis) where
  open r use {State, elapse}

  -- The calls themselves; `none` is an exception.
  unfoldable pub run_calls : Config → State → List Event → Option (List Bool × State)
  run_calls c s [] = some ([], s)
  run_calls c s (asks u now ∷ es) =
      and_then (can_request r s u now) λ (answer, s'). push_answer answer (run_calls c s' es)
  run_calls c s (fails u now ∷ es) = and_then (record_failure r c s u now) λ s'. run_calls c s' es
  run_calls c s (succeeds u ∷ es) = run_calls c (record_success r s u) es
  run_calls c s (passes d ∷ es) = run_calls c (elapse s d) es

  abbrev pub HoldsAll : State → Fleet → Type 0
  HoldsAll s f = (u : String) → Holds r s u (f u)

  pub HoldsAll-update :
      (s s' : State) (f : Fleet) (u : String) (b : Breaker)
      → HoldsAll s f
      → Holds r s' u b
      → Frames r s s' u
      → HoldsAll s' (update f u b)
  HoldsAll-update s s' f u b h h' fr v = elim (Bool-cases (u == v)) [
    | inl e ↦ rw e (subst (λ w. Holds r s' w b) ((eq_iff u v).0 e) h')
    | inr e ↦ rw e (Frames-Holds r s s' u v (f v) fr e (h v))
  ]

  -- The run returns the fleet's answers and leaves keys that hold the fleet's states.
  pub record Runs (c : Config) (s : State) (f : Fleet) (es : List Event) : Type 0 where
    pub after : State
    pub answers : run_calls c s es ≡ some ((run_fleet c f es).0, after)
    pub holds : HoldsAll after (run_fleet c f es).1

  -- From keys that hold the states of a family of breakers, one for each upstream, any sequence
  -- of calls for any upstreams with time passing returns without an exception, gives the
  -- answers of the abstract state machines, and leaves keys that hold the states of the
  -- machines.
  pub run_calls-Runs :
      (c : Config) (s : State) (f : Fleet) (es : List Event) → HoldsAll s f → Runs c s f es
  unfolding run_calls run_fleet
  run_calls-Runs c s f [] h = record { after = s; answers = refl; holds = h }
  run_calls-Runs c s f (asks u now ∷ es) h =
      let a = can_request-Holds r s u (f u) now (h u) in
      let next =
        run_calls-Runs c a.after _ es (HoldsAll-update s a.after f u _ h a.holds a.frame) in
      record {
        after = next.after;
        answers = rw a.answer (rw next.answers refl);
        holds = next.holds;
      }
  run_calls-Runs c s f (fails u now ∷ es) h =
      let a = record_failure-Holds r c s u (f u) now (h u) in
      let next =
        run_calls-Runs c a.after _ es (HoldsAll-update s a.after f u _ h a.holds a.frame) in
      record { after = next.after; answers = rw a.answer next.answers; holds = next.holds }
  run_calls-Runs c s f (succeeds u ∷ es) h =
      let s' = record_success r s u in
      let holds = record_success-Holds r s u (f u) (h u) in
      let next =
        run_calls-Runs c s' _ es (HoldsAll-update s s' f u _ h holds (Frames-success r s u)) in
      record { after = next.after; answers = next.answers; holds = next.holds }
  run_calls-Runs c s f (passes d ∷ es) h =
      let next = run_calls-Runs c (elapse s d) f es (λ u. elapse-Holds r s d u (f u) (h u)) in
      record { after = next.after; answers = next.answers; holds = next.holds }
