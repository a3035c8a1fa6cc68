-- ===== src/CircuitBreaker/Refinement.antt =====
-- `RedisCircuitBreaker` against the state machine of `Machine`, for each upstream by itself.
use rate_guardian.Base.{
  ℕ, ◌+◌, ◌*◌, ◌≡◌, refl, String, false, Option, none, some, eq_refl, if◌then◌else◌, inl, inr, leb,
  Bool-cases,
}
use rate_guardian.Models.{rate_per_second}
use rate_guardian.Redis.{Redis, float, state_key, failures_key, opens_at_key}
use rate_guardian.CircuitBreaker.{
  opened, half_opened, Config, or_closed, is_state, or_zero, transition, can_request,
  record_success, record_failure,
}
use rate_guardian.CircuitBreaker.Machine.{Mode, Breaker, due, ask, succeed, fail}
use rate_guardian.CircuitBreaker.Stored.{
  Holds, Frames, strings-transition_open, strings-transition_half, strings-transition-closed,
  Frames-refl, Frames-half,
}

module _ (r : Redis) where
  open r use {State, strings, set, incr, strings-set, strings-incr, reply-incr}

  success_mode :
      (s : State) (u : String) (m : Mode) (f : ℕ) (d : Option ℕ)
      → Holds r s u (record { mode = m; failures = f; opens_at = d })
      → Holds r (record_success r s u) u (succeed (record { mode = m; failures = f; opens_at = d }))
  unfolding record_success succeed or_closed is_state
  success_mode s u Mode.closed f d h = elim h.mode [
    | inl e ↦ rw (e, record_success) h
    | inr e ↦ rw (e, record_success) h
  ]
  success_mode s u Mode.open_until f d h =
      rw (h.mode, record_success)
        (record {
          mode = simp (strings-transition-closed, eq_refl) (inr refl);
          failures = simp (strings-transition-closed, eq_refl) refl;
          opens_at = simp (strings-transition-closed, eq_refl) refl;
          state_stays = simp (strings-transition-closed, eq_refl) refl;
          failures_stay = simp (strings-transition-closed, eq_refl) refl;
          opens_at_stays = simp (strings-transition-closed, eq_refl) refl;
        })
  success_mode s u Mode.half_open f d h =
      rw (h.mode, record_success)
        (record {
          mode = simp (strings-transition-closed, eq_refl) (inr refl);
          failures = simp (strings-transition-closed, eq_refl) refl;
          opens_at = simp (strings-transition-closed, eq_refl) refl;
          state_stays = simp (strings-transition-closed, eq_refl) refl;
          failures_stay = simp (strings-transition-closed, eq_refl) refl;
          opens_at_stays = simp (strings-transition-closed, eq_refl) refl;
        })

  -- `record_success` is `succeed`.
  pub record_success-Holds :
      (s : State) (u : String) (b : Breaker)
      → Holds r s u b
      → Holds r (record_success r s u) u (succeed b)
  record_success-Holds s u b h = success_mode s u b.mode b.failures b.opens_at h

  abbrev breaker : Mode → ℕ → Option ℕ → Breaker
  breaker m f d = record { mode = m; failures = f; opens_at = d }

  -- `can_request` answers `b` and leaves the keys as `ask` has them.
  pub record Asks (s : State) (u : String) (b : Breaker) (now : ℕ) : Type 0 where
    pub after : State
    pub answer : can_request r s u now ≡ some ((ask b now).0, after)
    pub holds : Holds r after u (ask b now).1
    pub frame : Frames r s after u

  probe-Holds :
      (s : State) (u : String) (f : ℕ) (d : Option ℕ)
      → Holds r s u (breaker Mode.open_until f d)
      → Holds r (transition r s u half_opened) u (breaker Mode.half_open f d)
  probe-Holds s u f d h = record {
    mode = simp (strings-transition_half r, eq_refl) refl;
    failures = simp (strings-transition_half r) h.failures;
    opens_at = simp (strings-transition_half r) h.opens_at;
    state_stays = simp (strings-transition_half r, eq_refl) refl;
    failures_stay = simp (strings-transition_half r) h.failures_stay;
    opens_at_stays = simp (strings-transition_half r) h.opens_at_stays;
  }

  ask_open :
      (s : State) (u : String) (f : ℕ) (d : Option ℕ) (now : ℕ)
      → Holds r s u (breaker Mode.open_until f d)
      → or_zero (strings s (opens_at_key u)).value ≡ some (due d)
      → Asks s u (breaker Mode.open_until f d) now
  unfolding can_request ask or_closed is_state
  ask_open s u f d now h e = elim (Bool-cases (leb (due d) now)) [
    | inl y ↦ record {
      after = transition r s u half_opened;
      answer = rw (h.mode, can_request) (rw e (rw y refl));
      holds = rw (y, ask) (probe-Holds s u f d h);
      frame = Frames-half r s u;
    }
    | inr n ↦ record {
      after = s;
      answer = rw (h.mode, can_request) (rw e (rw n refl));
      holds = rw (n, ask) h;
      frame = Frames-refl r s u;
    }
  ]

  ask_mode :
      (s : State) (u : String) (m : Mode) (f : ℕ) (d : Option ℕ) (now : ℕ)
      → Holds r s u (breaker m f d)
      → Asks s u (breaker m f d) now
  unfolding can_request ask or_closed is_state or_zero
  ask_mode s u Mode.closed f d now h = elim h.mode [
    | inl e ↦ record {
      after = s;
      answer = rw (e, can_request);
      holds = h;
      frame = Frames-refl r s u;
    }
    | inr e ↦ record {
      after = s;
      answer = rw (e, can_request);
      holds = h;
      frame = Frames-refl r s u;
    }
  ]
  ask_mode s u Mode.half_open f d now h = record {
    after = s;
    answer = rw (h.mode, can_request);
    holds = h;
    frame = Frames-refl r s u;
  }
  ask_mode s u Mode.open_until f none now h = ask_open s u f none now h (rw h.opens_at refl)
  ask_mode s u Mode.open_until f (some t) now h = ask_open s u f (some t) now h (rw h.opens_at refl)

  pub can_request-Holds :
      (s : State) (u : String) (b : Breaker) (now : ℕ) → Holds r s u b → Asks s u b now
  can_request-Holds s u b now h = ask_mode s u b.mode b.failures b.opens_at now h

  -- `record_failure` returns, and leaves the keys as `fail` has them.
  pub record Fails (c : Config) (s : State) (u : String) (b : Breaker) (now : ℕ) : Type 0 where
    pub after : State
    pub answer : record_failure r c s u now ≡ some after
    pub holds : Holds r after u (fail c b now)
    pub frame : Frames r s after u

  trip-Holds :
      (s : State) (u : String) (b : Breaker) (t : ℕ)
      → Holds r s u b
      → Holds r
          (transition r (set (incr s (failures_key u)).1 (opens_at_key u) (float t)) u opened)
          u
          (breaker Mode.open_until (b.failures + 1) (some t))
  trip-Holds s u b t h = record {
    mode = simp (strings-transition_open, eq_refl) refl;
    failures =
        simp
          (
            strings-transition_open,
            strings-set,
            strings-incr s (failures_key u) b.failures h.failures,
            eq_refl,
          )
          refl;
    opens_at = simp (strings-transition_open, strings-set, eq_refl) refl;
    state_stays = simp (strings-transition_open, eq_refl) refl;
    failures_stay =
        simp
          (
            strings-transition_open,
            strings-set,
            strings-incr s (failures_key u) b.failures h.failures,
            eq_refl,
          )
          h.failures_stay;
    opens_at_stays = simp (strings-transition_open, strings-set, eq_refl) refl;
  }

  count-Holds :
      (s : State) (u : String) (b : Breaker)
      → Holds r s u b
      → Holds r (incr s (failures_key u)).1 u (record b { failures = b.failures + 1 })
  count-Holds s u b h =
      let step = strings-incr s (failures_key u) b.failures h.failures in
      record {
        mode = simp step h.mode;
        failures = simp (step, eq_refl) refl;
        opens_at = simp step h.opens_at;
        state_stays = simp step h.state_stays;
        failures_stay = simp (step, eq_refl) h.failures_stay;
        opens_at_stays = simp step h.opens_at_stays;
      }

  abbrev tripped : Config → State → String → ℕ → State
  tripped c s u now =
      transition r
        (set (incr s (failures_key u)).1 (opens_at_key u)
          (float (now + c.recovery * rate_per_second)))
        u opened

  Frames-count :
      (s : State) (u : String) (b : Breaker)
      → Holds r s u b
      → Frames r s (incr s (failures_key u)).1 u
  Frames-count s u b h = record {
    same = λ j x y z. rw (strings-incr s (failures_key u) b.failures h.failures) (rw y refl);
  }

  Frames-trip :
      (c : Config) (s : State) (u : String) (b : Breaker) (now : ℕ)
      → Holds r s u b
      → Frames r s (tripped c s u now) u
  Frames-trip c s u b now h = record {
    same = λ j x y z.
        rw (strings-transition_open, x) (rw (strings-set, z) ((Frames-count s u b h).same j x y z));
  }

  -- Outside HALF_OPEN the count decides.
  fail_counted :
      (c : Config) (s : State) (u : String) (b : Breaker) (now : ℕ)
      → Holds r s u b
      → is_state (or_closed (strings s (state_key u)).value) half_opened ≡ false
      → fail c b now ≡ (
          if leb c.threshold (b.failures + 1)
          then breaker Mode.open_until (b.failures + 1) (some (now + c.recovery * rate_per_second))
          else record b { failures = b.failures + 1 })
      → Fails c s u b now
  unfolding record_failure
  fail_counted c s u b now h e m =
      let reply = reply-incr s (failures_key u) b.failures h.failures in
      elim (Bool-cases (leb c.threshold (b.failures + 1))) [
        | inl y ↦ record {
          after = tripped c s u now;
          answer = rw (h.failures, record_failure) (rw e (rw reply (rw y refl)));
          holds = rw m (rw y (trip-Holds s u b _ h));
          frame = Frames-trip c s u b now h;
        }
        | inr n ↦ record {
          after = (incr s (failures_key u)).1;
          answer = rw (h.failures, record_failure) (rw e (rw reply (rw n refl)));
          holds = rw m (rw n (count-Holds s u b h));
          frame = Frames-count s u b h;
        }
      ]

  fail_mode :
      (c : Config) (s : State) (u : String) (m : Mode) (f : ℕ) (d : Option ℕ) (now : ℕ)
      → Holds r s u (breaker m f d)
      → Fails c s u (breaker m f d) now
  unfolding record_failure fail or_closed is_state
  fail_mode c s u Mode.half_open f d now h = record {
    after = tripped c s u now;
    answer = rw (h.failures, record_failure) (rw h.mode refl);
    holds = trip-Holds s u (breaker Mode.half_open f d) _ h;
    frame = Frames-trip c s u (breaker Mode.half_open f d) now h;
  }
  fail_mode c s u Mode.open_until f d now h = fail_counted c s u _ now h (rw h.mode refl) refl
  fail_mode c s u Mode.closed f d now h = elim h.mode [
    | inl e ↦ fail_counted c s u _ now h (rw e refl) refl
    | inr e ↦ fail_counted c s u _ now h (rw e refl) refl
  ]

  pub record_failure-Holds :
      (c : Config) (s : State) (u : String) (b : Breaker) (now : ℕ)
      → Holds r s u b
      → Fails c s u b now
  record_failure-Holds c s u b now h = fail_mode c s u b.mode b.failures b.opens_at now h
