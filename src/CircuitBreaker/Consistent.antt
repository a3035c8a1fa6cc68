-- ===== src/CircuitBreaker/Consistent.antt =====
-- The docstring of `RedisCircuitBreaker`: "state mutations are always consistent". Which mode goes
-- with which count and deadline, and what `get_state` shows of it.
use rate_guardian.Base.{
  ℕ, ◌<◌, ◌≡◌, refl, ◌≢◌, String, Option, none, some, List, [], ◌∷◌, arith, ◌==◌, Bool-cases, inl,
  inr,
}
use rate_guardian.Redis.{Redis, Value, text, count_of}
use rate_guardian.CircuitBreaker.{
  closed, opened, half_opened, Config, CircuitState, or_closed, int_or_zero, float_or_none,
  get_state,
}
use rate_guardian.CircuitBreaker.Machine.{Mode, Breaker, ask, succeed, fail}
use rate_guardian.CircuitBreaker.Stored.{StoresMode, StoresDeadline, Holds}
use rate_guardian.CircuitBreaker.Runs.{
  Event, asks, fails, succeeds, passes, Fleet, update, run_fleet, run_calls, HoldsAll,
  run_calls-Runs,
}

-- Closed: below the threshold and with no deadline. Otherwise there is a deadline.
abbrev pub Consistent : Config → Mode → ℕ → Option ℕ → Type 0
Consistent c Mode.closed f d = (f < c.threshold) × (d ≡ none)
Consistent c _ f d = d ≢ none

abbrev pub IsConsistent : Config → Breaker → Type 0
IsConsistent c b = Consistent c b.mode b.failures b.opens_at

ask-IsConsistent :
    (c : Config) (m : Mode) (f : ℕ) (d : Option ℕ) (now : ℕ)
    → Consistent c m f d
    → IsConsistent c (ask (record { mode = m; failures = f; opens_at = d }) now).1
unfolding ask
ask-IsConsistent c Mode.closed f d now h = h
ask-IsConsistent c Mode.open_until f d now h = ground arith
ask-IsConsistent c Mode.half_open f d now h = h

succeed-IsConsistent :
    (c : Config) (m : Mode) (f : ℕ) (d : Option ℕ)
    → 0 < c.threshold
    → Consistent c m f d
    → IsConsistent c (succeed (record { mode = m; failures = f; opens_at = d }))
unfolding succeed
succeed-IsConsistent c Mode.closed f d t h = h
succeed-IsConsistent c Mode.open_until f d t h = (t, refl)
succeed-IsConsistent c Mode.half_open f d t h = (t, refl)

fail-IsConsistent :
    (c : Config) (m : Mode) (f : ℕ) (d : Option ℕ) (now : ℕ)
    → Consistent c m f d
    → IsConsistent c (fail c (record { mode = m; failures = f; opens_at = d }) now)
unfolding fail
fail-IsConsistent c Mode.closed f d now h = ground arith
fail-IsConsistent c Mode.open_until f d now h = ground arith
fail-IsConsistent c Mode.half_open f d now h = ground arith

update-all :
    (P : Breaker → Type 0) (f : Fleet) (u : String) (b : Breaker)
    → P b
    → ((v : String) → P (f v))
    → (v : String) → P (update f u b v)
update-all P f u b hb h v = elim (Bool-cases (u == v)) [ inl e ↦ rw e hb | inr e ↦ rw e (h v) ]

module _ (c : Config) (positive : 0 < c.threshold) where
  abbrev AllConsistent : Fleet → Type 0
  AllConsistent f = (u : String) → IsConsistent c (f u)

  run_fleet-IsConsistent :
      (f : Fleet) (es : List Event) → AllConsistent f → AllConsistent (run_fleet c f es).1
  unfolding run_fleet
  run_fleet-IsConsistent f [] h = h
  run_fleet-IsConsistent f (asks u now ∷ es) h =
      run_fleet-IsConsistent (update f u (ask (f u) now).1) es
        (update-all (IsConsistent c) f u _ (ask-IsConsistent c _ _ _ now (h u)) h)
  run_fleet-IsConsistent f (fails u now ∷ es) h =
      run_fleet-IsConsistent (update f u (fail c (f u) now)) es
        (update-all (IsConsistent c) f u _ (fail-IsConsistent c _ _ _ now (h u)) h)
  run_fleet-IsConsistent f (succeeds u ∷ es) h =
      run_fleet-IsConsistent (update f u (succeed (f u))) es
        (update-all (IsConsistent c) f u _ (succeed-IsConsistent c _ _ _ positive (h u)) h)
  run_fleet-IsConsistent f (passes d ∷ es) h = run_fleet-IsConsistent f es h

abbrev pub mode_name : Mode → String
mode_name Mode.closed = closed
mode_name Mode.open_until = opened
mode_name Mode.half_open = half_opened

abbrev pub shown : String → Breaker → CircuitState
shown u b = record {
  upstream = u;
  state = text (mode_name b.mode);
  failures = b.failures;
  opens_at = b.opens_at;
}

module _ (r : Redis) where
  open r use {State, strings}

  or_closed-name : (v : Option Value) (m : Mode) → StoresMode v m → or_closed v ≡ text (mode_name m)
  unfolding or_closed
  or_closed-name v Mode.closed (inl e) = rw e refl
  or_closed-name v Mode.closed (inr e) = rw e refl
  or_closed-name v Mode.open_until e = rw e refl
  or_closed-name v Mode.half_open e = rw e refl

  int_or_zero-count : (v : Option Value) (n : ℕ) → count_of v ≡ some n → int_or_zero v ≡ some n
  unfolding int_or_zero
  int_or_zero-count v n h = ground arith

  float_or_none-deadline :
      (v : Option Value) (d : Option ℕ) → StoresDeadline v d → float_or_none v ≡ some d
  unfolding float_or_none
  float_or_none-deadline v none e = rw e refl
  float_or_none-deadline v (some t) e = rw e refl

  pub get_state-shown :
      (s : State) (u : String) (b : Breaker) → Holds r s u b → get_state r s u ≡ some (shown u b)
  unfolding get_state
  get_state-shown s u b h =
      rw (int_or_zero-count _ _ h.failures, get_state)
        (rw (float_or_none-deadline _ _ h.opens_at) (rw (or_closed-name _ _ h.mode) refl))

  -- With a positive threshold and from keys that hold consistent states, any calls return the
  -- answers of the abstract machines, and then `get_state` shows a state in which a closed
  -- breaker has fewer failures than the threshold and no deadline, and another one has a
  -- deadline.
  pub run_calls-IsConsistent :
      (c : Config) (s : State) (f : Fleet) (es : List Event) (u : String)
      → 0 < c.threshold
      → HoldsAll r s f
      → ((v : String) → IsConsistent c (f v))
      → (after : State) × (b : Breaker) × (run_calls r c s es ≡ some ((run_fleet c f es).0, after))
        × (get_state r after u ≡ some (shown u b))
        × IsConsistent c b
  run_calls-IsConsistent c s f es u p h k =
      let run = run_calls-Runs r c s f es h in
      (
        run.after,
        (run_fleet c f es).1 u,
        run.answers,
        get_state-shown run.after u _ (run.holds u),
        run_fleet-IsConsistent c p f es k u,
      )
