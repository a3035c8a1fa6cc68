-- ===== src/CircuitBreaker/Race/Recovers.antt =====
-- Calls that interleave do not raise, and leave a breaker that will let requests through.
use rate_guardian.Base.{
  ℕ, zero, suc, ◌+◌, ◌≤◌, ◌≡◌, refl, String, Bool, true, false, ◌||◌, Option, none, some, List, [],
  ◌∷◌, leb, arith, All, ◌⊎◌, inl, inr, eq_refl, if◌then◌else◌,
}
use rate_guardian.Redis.{
  Redis, Value, text, int, float, StringKey, state_key, failures_key, opens_at_key, count_of,
}
use rate_guardian.CircuitBreaker.{
  Config, closed, opened, half_opened, or_closed, is_state, or_zero, get_value, can_request,
  transition,
}
use rate_guardian.Rules.Cache.{age-value}
use rate_guardian.CircuitBreaker.Race.{
  Worker, asking, succeeding, failing, looking, probing, closing, clearing, clearing_deadline,
  opening, marking, counting, answered, finished, raised, Action, asks, succeeds, fails, turn, wait,
  advance, take_turn, perform, perform_all,
}

-- What the calls write to the three keys.
pub data IsMode : Option Value → Type 0 where
  no_mode : IsMode none
  is_closed : IsMode (some (text closed))
  is_opened : IsMode (some (text opened))
  is_half : IsMode (some (text half_opened))

pub data IsCount : Option Value → Type 0 where
  no_count : IsCount none
  is_int : (n : ℕ) → IsCount (some (int n))

pub data IsTime : Option Value → Type 0 where
  no_time : IsTime none
  is_float : (t : ℕ) → IsTime (some (float t))

abbrev pub NotRaised : Worker → Type 0
NotRaised raised = ⊥
NotRaised _ = Unit

module _ (r : Redis) (c : Config) (u : String) where
  open r use {State, strings}

  pub record Typed (s : State) : Type 0 where
    pub mode : IsMode (strings s (state_key u)).value
    pub count : IsCount (strings s (failures_key u)).value
    pub time : IsTime (strings s (opens_at_key u)).value

  set_mode-Typed :
      (s : State) (name : String)
      → IsMode (some (text name))
      → Typed s
      → Typed (r.set s (state_key u) (text name))
  set_mode-Typed s name m h = record {
    mode = simp (r.strings-set, eq_refl) m;
    count = simp r.strings-set h.count;
    time = simp r.strings-set h.time;
  }

  set_time-Typed : (s : State) (t : ℕ) → Typed s → Typed (r.set s (opens_at_key u) (float t))
  set_time-Typed s t h = record {
    mode = simp r.strings-set h.mode;
    count = simp r.strings-set h.count;
    time = simp (r.strings-set, eq_refl) (is_float t);
  }

  delete_count-Typed : (s : State) → Typed s → Typed (r.delete s (failures_key u))
  delete_count-Typed s h = record {
    mode = simp r.strings-delete h.mode;
    count = simp (r.strings-delete, eq_refl) no_count;
    time = simp r.strings-delete h.time;
  }

  delete_time-Typed : (s : State) → Typed s → Typed (r.delete s (opens_at_key u))
  delete_time-Typed s h = record {
    mode = simp r.strings-delete h.mode;
    count = simp r.strings-delete h.count;
    time = simp (r.strings-delete, eq_refl) no_time;
  }

  incr-Typed :
      (s : State) (n : ℕ)
      → count_of (strings s (failures_key u)).value ≡ some n
      → Typed s
      → Typed (r.incr s (failures_key u)).1
  incr-Typed s n e h =
      let step = r.strings-incr s (failures_key u) n e in
      record {
        mode = simp step h.mode;
        count = simp (step, eq_refl) (is_int (n + 1));
        time = simp step h.time;
      }

  -- A number can be read of what is there.
  counted : (v : Option Value) → IsCount v → (n : ℕ) × (count_of v ≡ some n)
  counted v no_count = (0, refl)
  counted v (is_int n) = (n, refl)

  timed : (v : Option Value) → IsTime v → (t : ℕ) × (or_zero v ≡ some t)
  unfolding or_zero
  timed v no_time = (0, refl)
  timed v (is_float t) = (t, refl)

  aged :
      (s : State) (d : ℕ) (k : StringKey)
      → ((strings (r.elapse s d) k).value ≡ none)
        ⊎ ((strings (r.elapse s d) k).value ≡ (strings s k).value)
  aged s d k = rw r.strings-elapse (age-value d (strings s k).value (strings s k).ttl)

  elapse-Typed : (s : State) (d : ℕ) → Typed s → Typed (r.elapse s d)
  elapse-Typed s d h = record {
    mode = elim (aged s d (state_key u)) [ inl e ↦ rw e no_mode | inr e ↦ rw e h.mode ];
    count = elim (aged s d (failures_key u)) [ inl e ↦ rw e no_count | inr e ↦ rw e h.count ];
    time = elim (aged s d (opens_at_key u)) [ inl e ↦ rw e no_time | inr e ↦ rw e h.time ];
  }

  -- A worker that has not raised, and keys that hold what the calls write.
  abbrev Healthy : Worker × State → Type 0
  Healthy (w, s) = NotRaised w × Typed s

  either-NotRaised :
      (b : Bool) (x y : Worker) → NotRaised x → NotRaised y → NotRaised (if b then x else y)
  either-NotRaised true x y h k = h
  either-NotRaised false x y h k = k

  advance-Healthy :
      (w : Worker) (clock : ℕ) (s : State)
      → NotRaised w
      → Typed s
      → Healthy (advance r c u w clock s)
  unfolding advance
  advance-Healthy asking clock s e h =
      let state = or_closed (get_value r s (state_key u)) in
      (
        either-NotRaised (is_state state closed) (answered true)
            (if is_state state opened then looking else answered true) tt
            (either-NotRaised (is_state state opened) looking (answered true) tt tt),
        h,
      )
  advance-Healthy looking clock s e h =
      let (t, k) = timed _ h.time in
      rw (k, advance) (either-NotRaised (leb t clock) probing (answered false) tt tt, h)
  advance-Healthy probing clock s e h = (tt, set_mode-Typed s half_opened is_half h)
  advance-Healthy succeeding clock s e h =
      let state = or_closed (get_value r s (state_key u)) in
      (
        either-NotRaised (is_state state half_opened || is_state state opened) closing finished tt
            tt,
        h,
      )
  advance-Healthy closing clock s e h = (tt, set_mode-Typed s closed is_closed h)
  advance-Healthy clearing clock s e h = (tt, delete_count-Typed s h)
  advance-Healthy clearing_deadline clock s e h = (tt, delete_time-Typed s h)
  advance-Healthy failing clock s e h = (tt, h)
  advance-Healthy (counting half) clock s e h =
      let (n, k) = counted _ h.count in
      rw (k, advance)
        (
          either-NotRaised (half || leb c.threshold (r.incr s (failures_key u)).0) opening finished
              tt tt,
          incr-Typed s n k h,
        )
  advance-Healthy opening clock s e h = (tt, set_time-Typed s _ h)
  advance-Healthy marking clock s e h = (tt, set_mode-Typed s opened is_opened h)
  advance-Healthy (answered answer) clock s e h = (tt, h)
  advance-Healthy finished clock s e h = (tt, h)
  advance-Healthy raised clock s e h = absurd e

  abbrev pub AllHealthy : List Worker × State → Type 0
  AllHealthy (ws, s) = All NotRaised ws × Typed s

  take_turn-AllHealthy :
      (i clock : ℕ) (ws : List Worker) (s : State)
      → All NotRaised ws
      → Typed s
      → AllHealthy (take_turn r c u i clock ws s)
  unfolding take_turn
  take_turn-AllHealthy i clock [] s e h = (tt, h)
  take_turn-AllHealthy zero clock (w ∷ ws) s e h =
      let (e', h') = advance-Healthy w clock s e.0 h in ((e', e.1), h')
  take_turn-AllHealthy (suc i) clock (w ∷ ws) s e h =
      let (es, h') = take_turn-AllHealthy i clock ws s e.1 h in ((e.0, es), h')

  perform-AllHealthy :
      (a : Action) (system : List Worker × State)
      → AllHealthy system
      → AllHealthy (perform r c u a system)
  unfolding perform
  perform-AllHealthy asks (ws, s) (e, h) = ((tt, e), h)
  perform-AllHealthy succeeds (ws, s) (e, h) = ((tt, e), h)
  perform-AllHealthy fails (ws, s) (e, h) = ((tt, e), h)
  perform-AllHealthy (turn i clock) (ws, s) (e, h) = take_turn-AllHealthy i clock ws s e h
  perform-AllHealthy (wait d) (ws, s) (e, h) = (e, elapse-Typed s d h)

  perform_all-AllHealthy :
      (actions : List Action) (system : List Worker × State)
      → AllHealthy system
      → AllHealthy (perform_all r c u actions system)
  unfolding perform_all
  perform_all-AllHealthy [] system h = h
  perform_all-AllHealthy (a ∷ actions) system h =
      perform_all-AllHealthy actions (perform r c u a system) (perform-AllHealthy a system h)

  asks_late :
      (s : State) (v : Option Value) (t now : ℕ)
      → IsMode v
      → (strings s (state_key u)).value ≡ v
      → or_zero (strings s (opens_at_key u)).value ≡ some t
      → t ≤ now
      → (after : State) × (can_request r s u now ≡ some (true, after))
  unfolding can_request or_closed is_state
  asks_late s v t now no_mode e k late = (s, rw (e, can_request) refl)
  asks_late s v t now is_closed e k late = (s, rw (e, can_request) refl)
  asks_late s v t now is_opened e k late =
      (transition r s u half_opened, rw (e, can_request) (rw k (ground (arith, late))))
  asks_late s v t now is_half e k late = (s, rw (e, can_request) refl)

  -- From keys of an upstream that hold a state of the breaker, a count and a deadline, or
  -- nothing, any number of questions, successes and failures for the upstream whose commands
  -- interleave in any order, with time passing between them, raise no exception, and after them
  -- a question at or after the deadline that is kept, if one is, is answered yes.
  pub interleaved_recovers :
      (actions : List Action) (s : State) (t now : ℕ)
      → Typed s
      → or_zero (get_value r (perform_all r c u actions ([], s)).1 (opens_at_key u)) ≡ some t
      → t ≤ now
      → let (ws, s') = perform_all r c u actions ([], s) in
        All NotRaised ws × (after : State) × (can_request r s' u now ≡ some (true, after))
  interleaved_recovers actions s t now h k late =
      let (ended, typed) = perform_all-AllHealthy actions ([], s) (tt, h) in
      let (after, e) =
        asks_late (perform_all r c u actions ([], s)).1 _ t now typed.mode refl k late in
      (ended, after, e)
