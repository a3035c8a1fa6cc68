-- ===== src/CircuitBreaker/Recovery.antt =====
-- When the breaker opens, what it answers while it is open, and what it lets through when it is
-- half open.
use rate_guardian.Base.{
  ℕ, ◌+◌, ◌*◌, ◌≤◌, ◌<◌, ◌≡◌, refl, String, Bool, true, false, Option, none, some, List, [], ◌∷◌,
  ◌++◌, map, All, arith, subst, ap, ◌∙◌, ◌==◌, eq_iff, eq_refl, Bool-cases, inl, inr, if◌then◌else◌,
}
use rate_guardian.Models.{rate_per_second}
use rate_guardian.Redis.{Redis, Value, text, state_key}
use rate_guardian.CircuitBreaker.{
  Config, opened, half_opened, or_closed, is_state, or_zero, can_request,
}
use rate_guardian.CircuitBreaker.Machine.{Mode, Breaker, due, ask, succeed, fail}
use rate_guardian.CircuitBreaker.Stored.{StoresMode, StoresDeadline, Holds}
use rate_guardian.CircuitBreaker.Runs.{
  Event, asks, fails, succeeds, passes, Fleet, update, run_fleet, run_calls, HoldsAll,
  run_calls-Runs,
}

-- How often a list of events reports a failure of an upstream.
abbrev pub failures_of : String → List Event → ℕ
failures_of u [] = 0
failures_of u (fails v now ∷ es) = (if v == u then 1 else 0) + failures_of u es
failures_of u (_ ∷ es) = failures_of u es

ask-closed : (b : Breaker) (now : ℕ) → b.mode ≡ Mode.closed → (ask b now).1 ≡ b
unfolding ask
ask-closed b now m = ground arith

succeed-closed : (b : Breaker) → b.mode ≡ Mode.closed → succeed b ≡ b
unfolding succeed
succeed-closed b m = ground arith

fail-closed :
    (c : Config) (b : Breaker) (now : ℕ)
    → b.mode ≡ Mode.closed
    → b.failures + 1 < c.threshold
    → fail c b now ≡ record b { failures = b.failures + 1 }
unfolding fail
fail-closed c b now m h = ground arith

fail_trips :
    (c : Config) (b : Breaker) (now : ℕ)
    → c.threshold ≤ b.failures + 1
    → fail c b now ≡ record {
      mode = Mode.open_until;
      failures = b.failures + 1;
      opens_at = some (now + c.recovery * rate_per_second);
    }
unfolding fail
fail_trips c b now h = ground arith

-- An update that changes nothing at `u`.
quiet : (f : Fleet) (u v : String) (b : Breaker) → (v ≡ u → b ≡ f u) → update f v b u ≡ f u
quiet f u v b h = elim (Bool-cases (v == u)) [
  | inl e ↦ rw e (h ((eq_iff v u).0 e))
  | inr e ↦ rw e refl
]

-- `b'` is closed, with `n` failures more than `b`.
abbrev Counted : Breaker → ℕ → Breaker → Type 0
Counted b n b' = (b'.mode ≡ Mode.closed) × (b'.failures ≡ b.failures + n)

abbrev hits : String → String → ℕ
hits v u = if v == u then 1 else 0

failed-Counted :
    (c : Config) (f : Fleet) (u v : String) (now : ℕ)
    → (f u).mode ≡ Mode.closed
    → (f u).failures + hits v u < c.threshold
    → Counted (f u) (hits v u) (update f v (fail c (f v) now) u)
failed-Counted c f u v now m h = elim (Bool-cases (v == u)) [
  | inl e ↦
      let one =
        subst (λ (k : ℕ). (f u).failures + k < c.threshold) (ap (λ b. if b then 1 else 0) e) h in
      rw e (rw ((eq_iff v u).0 e) (rw (fail-closed c (f u) now m one) (m, refl)))
  | inr e ↦ rw e (m, omega arith)
]

run_fleet-Counted :
    (c : Config) (u : String) (f : Fleet) (es : List Event)
    → (f u).mode ≡ Mode.closed
    → (f u).failures + failures_of u es < c.threshold
    → Counted (f u) (failures_of u es) ((run_fleet c f es).1 u)
unfolding run_fleet
run_fleet-Counted c u f [] m h = (m, omega arith)
run_fleet-Counted c u f (asks v now ∷ es) m h =
    let g = update f v (ask (f v) now).1 in
    let q : g u ≡ f u = quiet f u v _ (λ e. rw e (ask-closed (f u) now m)) in
    let ih = run_fleet-Counted c u g es (rw q m) (rw q h) in
    (ih.0, ih.1 ∙ ap (λ (b : Breaker). b.failures + failures_of u es) q)
run_fleet-Counted c u f (succeeds v ∷ es) m h =
    let g = update f v (succeed (f v)) in
    let q : g u ≡ f u = quiet f u v _ (λ e. rw e (succeed-closed (f u) m)) in
    let ih = run_fleet-Counted c u g es (rw q m) (rw q h) in
    (ih.0, ih.1 ∙ ap (λ (b : Breaker). b.failures + failures_of u es) q)
run_fleet-Counted c u f (fails v now ∷ es) m h =
    let g = update f v (fail c (f v) now) in
    let one = failed-Counted c f u v now m (omega arith) in
    let ih = run_fleet-Counted c u g es one.0 (omega (arith, one.1)) in
    (ih.0, omega (arith, ih.1, one.1))
run_fleet-Counted c u f (passes d ∷ es) m h = run_fleet-Counted c u f es m h

run_fleet-append :
    (c : Config) (f : Fleet) (es es' : List Event)
    → (run_fleet c f (es ++ es')).1 ≡ (run_fleet c (run_fleet c f es).1 es').1
unfolding run_fleet
run_fleet-append c f [] es' = refl
run_fleet-append c f (asks u now ∷ es) es' =
    run_fleet-append c (update f u (ask (f u) now).1) es es'
run_fleet-append c f (fails u now ∷ es) es' =
    run_fleet-append c (update f u (fail c (f u) now)) es es'
run_fleet-append c f (succeeds u ∷ es) es' = run_fleet-append c (update f u (succeed (f u))) es es'
run_fleet-append c f (passes d ∷ es) es' = run_fleet-append c f es es'

update_self : (f : Fleet) (u : String) (b : Breaker) → update f u b u ≡ b
update_self f u b = rw (eq_refl u) refl

fleet_trips :
    (c : Config) (u : String) (f : Fleet) (es : List Event) (now : ℕ)
    → (f u).mode ≡ Mode.closed
    → (f u).failures + failures_of u es + 1 ≡ c.threshold
    → (run_fleet c f (es ++ fails u now ∷ [])).1 u ≡ record {
      mode = Mode.open_until;
      failures = c.threshold;
      opens_at = some (now + c.recovery * rate_per_second);
    }
unfolding run_fleet
fleet_trips c u f es now m h =
    let before = run_fleet-Counted c u f es m (omega arith) in
    let b = (run_fleet c f es).1 u in
    rw (run_fleet-append c f es (fails u now ∷ [])) (
      update_self (run_fleet c f es).1 u _
      ∙ fail_trips c b now (omega (arith, before.1))
      ∙ ap
          (λ (n : ℕ).
            let b' : Breaker = record {
              mode = Mode.open_until;
              failures = n;
              opens_at = some (now + c.recovery * rate_per_second);
            } in
            b')
          (omega (arith, before.1)))

module _ (r : Redis) where
  open r use {State, strings}

  -- From a closed breaker, any calls for any upstreams after which the failures of this one are
  -- one short of the threshold, and then one more failure, return and leave the breaker open,
  -- with the threshold as its count and a deadline that is the recovery time after the last
  -- failure. Successes among the calls do not lower the count.
  pub opens_at_threshold :
      (c : Config) (s : State) (f : Fleet) (u : String) (es : List Event) (now : ℕ)
      → HoldsAll r s f
      → (f u).mode ≡ Mode.closed
      → (f u).failures + failures_of u es + 1 ≡ c.threshold
      → (answers : List Bool) × (after : State) × (run_calls r c s (es ++ fails u now ∷ [])
          ≡ some (answers, after))
        × Holds r after u (record {
          mode = Mode.open_until;
          failures = c.threshold;
          opens_at = some (now + c.recovery * rate_per_second);
        })
  opens_at_threshold c s f u es now h m n =
      let run = run_calls-Runs r c s f (es ++ fails u now ∷ []) h in
      (
        (run_fleet c f (es ++ fails u now ∷ [])).0,
        run.after,
        run.answers,
        subst (λ b. Holds r run.after u b) (fleet_trips c u f es now m n) (run.holds u),
      )

  -- From a closed breaker, any calls for any upstreams in which the failures of this one stay
  -- below the threshold return, and leave the breaker closed with the failures added to its
  -- count.
  stays_closed :
      (c : Config) (s : State) (f : Fleet) (u : String) (es : List Event)
      → HoldsAll r s f
      → (f u).mode ≡ Mode.closed
      → (f u).failures + failures_of u es < c.threshold
      → (answers : List Bool) × (after : State) × (b : Breaker) × (run_calls r c s es
          ≡ some (answers, after))
        × Holds r after u b
        × (b.mode ≡ Mode.closed)
        × (b.failures ≡ (f u).failures + failures_of u es)
  stays_closed c s f u es h m n =
      let run = run_calls-Runs r c s f es h in
      let counted = run_fleet-Counted c u f es m n in
      (
        (run_fleet c f es).0,
        run.after,
        (run_fleet c f es).1 u,
        run.answers,
        run.holds u,
        counted.0,
        counted.1,
      )

  StoresDeadline-due :
      (v : Option Value) (d : Option ℕ) → StoresDeadline v d → or_zero v ≡ some (due d)
  unfolding or_zero
  StoresDeadline-due v none e = rw e refl
  StoresDeadline-due v (some t) e = rw e refl

  pub asks_open :
      (s : State) (u : String) (b : Breaker) (now : ℕ)
      → Holds r s u b
      → b.mode ≡ Mode.open_until
      → now < due b.opens_at
      → can_request r s u now ≡ some (false, s)
  unfolding can_request or_closed is_state
  asks_open s u b now h m early =
      let mode : (strings s (state_key u)).value ≡ some (text opened) =
        subst (StoresMode (strings s (state_key u)).value) m h.mode in
      rw (mode, can_request) (rw (StoresDeadline-due _ b.opens_at h.opens_at) (ground arith))

  asks_half_open :
      (s : State) (u : String) (b : Breaker) (now : ℕ)
      → Holds r s u b
      → b.mode ≡ Mode.half_open
      → can_request r s u now ≡ some (true, s)
  unfolding can_request or_closed is_state
  asks_half_open s u b now h m =
      let mode : (strings s (state_key u)).value ≡ some (text half_opened) =
        subst (StoresMode (strings s (state_key u)).value) m h.mode in
      rw (mode, can_request) refl

  -- While a breaker is open, any sequence of questions at times before its deadline is answered
  -- no, and changes nothing.
  pub open_rejects :
      (c : Config) (s : State) (u : String) (b : Breaker) (ts : List ℕ)
      → Holds r s u b
      → b.mode ≡ Mode.open_until
      → All (λ t. t < due b.opens_at) ts
      → run_calls r c s (map (asks u) ts) ≡ some (map (λ t. false) ts, s)
  unfolding run_calls
  open_rejects c s u b [] h m early = refl
  open_rejects c s u b (t ∷ ts) h m early =
      rw (asks_open s u b t h m early.0) (rw (open_rejects c s u b ts h m early.1) refl)
