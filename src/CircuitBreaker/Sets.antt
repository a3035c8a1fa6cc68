-- ===== src/CircuitBreaker/Sets.antt =====
-- `RedisCircuitBreaker` (app/models/services/circuit_breaker.py) writes to no sorted set.
use rate_guardian.Base.{
  ℕ, ◌*◌, ◌+◌, ◌≡◌, refl, ◌∙◌, String, Bool, Option, none, some, inl, inr, Bool-cases, Option-cases,
  leb, ◌||◌, ◌==◌,
}
use rate_guardian.Models.{rate_per_second}
use rate_guardian.Redis.{Redis, state_key, failures_key, opens_at_key, count_of, float}
use rate_guardian.CircuitBreaker.{
  closed, opened, half_opened, Config, or_closed, is_state, or_zero, get_value, transition,
  can_request, record_success, record_failure,
}

module _ (r : Redis) where
  open r use {State, zsets, set, incr, delete, zsets-set, zsets-incr, zsets-delete}

  -- The sorted sets are as they were.
  abbrev pub SameSets : State → State → Type 0
  SameSets s s' = (z : String) → zsets s' z ≡ zsets s z

  pub transition-SameSets : (s : State) (u mode : String) → SameSets s (transition r s u mode)
  unfolding transition
  transition-SameSets s u mode z = elim (Bool-cases (mode == closed)) [
    | inl y ↦ rw (y, zsets-delete, zsets-delete, zsets-set) refl
    | inr n ↦ rw (n, zsets-set) refl
  ]

  pub success-SameSets : (s : State) (u : String) → SameSets s (record_success r s u)
  unfolding record_success
  success-SameSets s u z =
      let state = or_closed (get_value r s (state_key u)) in
      elim (Bool-cases (is_state state half_opened || is_state state opened)) [
        | inl y ↦ rw y (transition-SameSets s u closed z)
        | inr n ↦ rw n refl
      ]

  abbrev pub Asked : State → Option (Bool × State) → Type 0
  Asked s none = Unit
  Asked s (some (answer, s')) = SameSets s s'

  abbrev pub Recorded : State → Option State → Type 0
  Recorded s none = Unit
  Recorded s (some s') = SameSets s s'

  pub can_request-Asked : (s : State) (u : String) (now : ℕ) → Asked s (can_request r s u now)
  unfolding can_request
  can_request-Asked s u now =
      let state = or_closed (get_value r s (state_key u)) in
      elim (Bool-cases (is_state state closed)) [
        | inl y ↦ rw y λ z. refl
        | inr n ↦ rw n (elim (Bool-cases (is_state state opened)) [
          | inl y ↦ rw y (elim (Option-cases (or_zero (get_value r s (opens_at_key u)))) [
            | inl e ↦ rw e tt
            | inr (t, e) ↦ rw e (elim (Bool-cases (leb t now)) [
              | inl y ↦ rw y (transition-SameSets s u half_opened)
              | inr n ↦ rw n λ z. refl
            ])
          ])
          | inr n ↦ rw n λ z. refl
        ])
      ]

  pub failure-Recorded :
      (c : Config) (s : State) (u : String) (now : ℕ) → Recorded s (record_failure r c s u now)
  unfolding record_failure
  failure-Recorded c s u now =
      let state = or_closed (get_value r s (state_key u)) in
      let (failures, s') = incr s (failures_key u) in
      let late = set s' (opens_at_key u) (float (now + c.recovery * rate_per_second)) in
      elim (Option-cases (count_of (get_value r s (failures_key u)))) [
        | inl e ↦ rw (e, record_failure) tt
        | inr (n, e) ↦
            rw (e, record_failure)
              (elim (Bool-cases (is_state state half_opened || leb c.threshold failures)) [
                | inl y ↦
                    rw y λ z. transition-SameSets late u opened z ∙ rw (zsets-set, zsets-incr) refl
                | inr n ↦ rw n λ z. rw zsets-incr refl
              ])
      ]
