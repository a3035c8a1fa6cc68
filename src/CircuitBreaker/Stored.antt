-- ===== src/CircuitBreaker/Stored.antt =====
-- How the keys of an upstream hold a state of `Machine`, and what `_transition` of
-- app/models/services/circuit_breaker.py writes.
use rate_guardian.Base.{
  ℕ, ◌≡◌, refl, String, false, Option, none, some, arith, ◌==◌, if◌then◌else◌, ◌⊎◌,
}
use rate_guardian.Redis.{
  Redis, Value, text, float, StringKey, StringCell, vacant, state_key, failures_key, opens_at_key,
  count_of, key_eq,
}
use rate_guardian.CircuitBreaker.{closed, opened, half_opened, transition, record_success}
use rate_guardian.CircuitBreaker.Machine.{Mode, Breaker}

-- The texts under which a mode is stored: a missing one is CLOSED.
abbrev pub StoresMode : Option Value → Mode → Type 0
StoresMode v Mode.closed = (v ≡ none) ⊎ (v ≡ some (text closed))
StoresMode v Mode.open_until = v ≡ some (text opened)
StoresMode v Mode.half_open = v ≡ some (text half_opened)

abbrev pub StoresDeadline : Option Value → Option ℕ → Type 0
StoresDeadline v none = v ≡ none
StoresDeadline v (some t) = v ≡ some (float t)

module _ (r : Redis) where
  open r use {
    State, strings, set, incr, delete, strings-set, strings-delete, strings-incr, reply-incr,
    elapse, strings-elapse,
  }

  -- The three keys of an upstream hold the state `b`.
  pub record Holds (s : State) (upstream : String) (b : Breaker) : Type 0 where
    pub mode : StoresMode (strings s (state_key upstream)).value b.mode
    pub failures : count_of (strings s (failures_key upstream)).value ≡ some b.failures
    pub opens_at : StoresDeadline (strings s (opens_at_key upstream)).value b.opens_at
    -- None of them expires.
    pub state_stays : (strings s (state_key upstream)).ttl ≡ none
    pub failures_stay : (strings s (failures_key upstream)).ttl ≡ none
    pub opens_at_stays : (strings s (opens_at_key upstream)).ttl ≡ none

  -- A call for `upstream` writes to that upstream's keys only.
  pub record Frames (s s' : State) (upstream : String) : Type 0 where
    pub same :
        (j : StringKey)
        → key_eq (state_key upstream) j ≡ false
        → key_eq (failures_key upstream) j ≡ false
        → key_eq (opens_at_key upstream) j ≡ false
        → strings s' j ≡ strings s j

  abbrev pub set_cell : Value → StringCell
  set_cell v = record { value = some v; ttl = none }

  pub strings-transition_open :
      (s : State) (u : String) (j : StringKey)
      → strings (transition r s u opened) j
        ≡ (if key_eq (state_key u) j then set_cell (text opened) else strings s j)
  unfolding transition
  strings-transition_open s u j = strings-set s (state_key u) (text opened) j

  pub strings-transition_half :
      (s : State) (u : String) (j : StringKey)
      → strings (transition r s u half_opened) j
        ≡ (if key_eq (state_key u) j then set_cell (text half_opened) else strings s j)
  unfolding transition
  strings-transition_half s u j = strings-set s (state_key u) (text half_opened) j

  pub strings-transition-closed :
      (s : State) (u : String) (j : StringKey)
      → strings (transition r s u closed) j ≡ (
          if key_eq (opens_at_key u) j
          then vacant
          else if key_eq (failures_key u) j
          then vacant
          else if key_eq (state_key u) j
          then set_cell (text closed)
          else strings s j)
  unfolding transition
  strings-transition-closed s u j = simp (strings-delete, strings-set)

  pub Frames-refl : (s : State) (u : String) → Frames s s u
  Frames-refl s u = record { same = λ j a b c. refl }

  pub Frames-success : (s : State) (u : String) → Frames s (record_success r s u) u
  unfolding record_success
  Frames-success s u = record { same = λ j a b c. ground (arith, strings-transition-closed s u j) }

  pub Frames-half : (s : State) (u : String) → Frames s (transition r s u half_opened) u
  Frames-half s u = record { same = λ j a b c. rw strings-transition_half (rw a refl) }

  -- What one upstream's keys hold is not changed by a call for another.
  pub Frames-Holds :
      (s s' : State) (u v : String) (b : Breaker)
      → Frames s s' u
      → (u == v) ≡ false
      → Holds s v b
      → Holds s' v b
  Frames-Holds s s' u v b fr e h =
      let m = fr.same (state_key v) e refl refl in
      let f = fr.same (failures_key v) refl e refl in
      let o = fr.same (opens_at_key v) refl refl e in
      record {
        mode = rw m h.mode;
        failures = rw f h.failures;
        opens_at = rw o h.opens_at;
        state_stays = rw m h.state_stays;
        failures_stay = rw f h.failures_stay;
        opens_at_stays = rw o h.opens_at_stays;
      }

  -- Nor does the passing of time change it.
  pub elapse-Holds :
      (s : State) (d : ℕ) (u : String) (b : Breaker) → Holds s u b → Holds (elapse s d) u b
  elapse-Holds s d u b h =
      let m = stays (state_key u) h.state_stays in
      let f = stays (failures_key u) h.failures_stay in
      let o = stays (opens_at_key u) h.opens_at_stays in
      record {
        mode = rw m h.mode;
        failures = rw f h.failures;
        opens_at = rw o h.opens_at;
        state_stays = rw m h.state_stays;
        failures_stay = rw f h.failures_stay;
        opens_at_stays = rw o h.opens_at_stays;
      }
    where
      stays : (k : StringKey) → (strings s k).ttl ≡ none → strings (elapse s d) k ≡ strings s k
      stays k e = rw strings-elapse (rw e refl)
