-- ===== src/RateLimiter/Race/Bound.antt =====
-- How far the workers together can pass the limit.
use rate_guardian.Base.{
  ℕ, zero, suc, ◌+◌, ◌≤◌, ◌<◌, ◌≡◌, refl, ap, String, List, [], ◌∷◌, arith, ltb, leb, sub_ℕ, leb_ℤ,
  not, length, length-select-le, Bool-cases, inl, inr, ◌⊎◌, eq_refl, Option, none, some,
}
use rate_guardian.Redis.{Redis, ZsetCell, put_member, age_zset}
use rate_guardian.RateLimiter.{seconds}
use rate_guardian.RateLimiter.Effect.{members-keep, members-set_ttl}
use rate_guardian.RateLimiter.Race.{
  Worker, ready, timed, trimmed, admitting, added, rejecting, answered, Action, turn, serve, wait,
  next_request, advance, take_turn, perform, perform_all,
}

-- The calls that have found room and have not added their time yet.
abbrev is_admitting : Worker → ℕ
is_admitting (admitting now count) = 1
is_admitting _ = 0

abbrev admissions : List Worker → ℕ
admissions [] = 0
admissions (w ∷ ws) = is_admitting w + admissions ws

admissions-le : (ws : List Worker) → admissions ws ≤ length ws
admissions-le [] = omega arith
admissions-le (ready ∷ ws) = omega (arith, admissions-le ws)
admissions-le (timed now ∷ ws) = omega (arith, admissions-le ws)
admissions-le (trimmed now ∷ ws) = omega (arith, admissions-le ws)
admissions-le (rejecting now ∷ ws) = omega (arith, admissions-le ws)
admissions-le (admitting now count ∷ ws) = omega (arith, admissions-le ws)
admissions-le (added now count ∷ ws) = omega (arith, admissions-le ws)
admissions-le (answered result ∷ ws) = omega (arith, admissions-le ws)

next-admissions :
    (i : ℕ) (ws : List Worker)
    → (admissions (next_request i ws) ≡ admissions ws) × (length (next_request i ws) ≡ length ws)
unfolding next_request
next-admissions i [] = (refl, refl)
next-admissions zero (ready ∷ ws) = (refl, refl)
next-admissions zero (timed now ∷ ws) = (refl, refl)
next-admissions zero (trimmed now ∷ ws) = (refl, refl)
next-admissions zero (rejecting now ∷ ws) = (refl, refl)
next-admissions zero (admitting now count ∷ ws) = (refl, refl)
next-admissions zero (added now count ∷ ws) = (refl, refl)
next-admissions zero (answered result ∷ ws) = (refl, refl)
next-admissions (suc i) (w ∷ ws) =
    let rest = next-admissions i ws in (omega (arith, rest.0), omega (arith, rest.1))

put_member-le : (t : ℕ) (xs : List ℕ) → length (put_member t xs) ≤ suc (length xs)
put_member-le t [] = omega arith
put_member-le t (x ∷ xs) = ground (arith, put_member-le t xs)

age_ttl-le :
    (d : ℕ) (xs : List ℕ) (ttl : Option ℕ)
    → length (age_zset d (record { members = xs; ttl = ttl })).members ≤ length xs
age_ttl-le d xs none = omega arith
age_ttl-le d xs (some left) = elim (Bool-cases (leb left d)) [
  | inl y ↦ rw y (omega arith)
  | inr y ↦ rw y (omega arith)
]

age-le : (d : ℕ) (c : ZsetCell) → length (age_zset d c).members ≤ length c.members
age-le d c = age_ttl-le d c.members c.ttl

-- Workers that have not begun.
abbrev pub all_ready : ℕ → List Worker
all_ready zero = []
all_ready (suc n) = ready ∷ all_ready n

idle : (n : ℕ) → (length (all_ready n) ≡ n) × (admissions (all_ready n) ≡ 0)
idle zero = (refl, refl)
idle (suc n) = (ap suc (idle n).0, omega (arith, (idle n).1))

module _ (r : Redis) (key : String) where
  open r use {State, zsets}

  abbrev pub card : State → ℕ
  card s = length (zsets s key).members

  zadd-le : (s : State) (now : ℕ) → card (r.zadd s key now) ≤ suc (card s)
  zadd-le s now = rw (r.zsets-zadd, eq_refl key) (put_member-le now (zsets s key).members)

  expire-same : (s : State) (ttl : ℕ) → card (r.expire s key ttl) ≡ card s
  expire-same s ttl =
      rw (r.zsets-expire, eq_refl key) (ap length (members-set_ttl ttl (zsets s key).members))

  elapse-le : (s : State) (d : ℕ) → card (r.elapse s d) ≤ card s
  elapse-le s d = rw r.zsets-elapse (age-le d (zsets s key))

module _ (r : Redis) (key : String) (limit w : ℕ) where
  open r use {State, zsets}

  trim-le :
      (s : State) (now : ℕ)
      → card r key (r.zremrangebyscore s key (sub_ℕ now (seconds w))) ≤ card r key s
  trim-le s now =
      rw (r.zsets-zremrangebyscore, eq_refl key)
        (rw members-keep
          (length-select-le (λ x. not (leb_ℤ x (sub_ℕ now (seconds w)))) (zsets s key).members))

  -- A turn that finds no room keeps the sum of the entries and the admissions under way.
  advance-le :
      (x : Worker) (clock : ℕ) (s : State)
      → let (y, s') = advance r key limit w x clock s in
        (card r key s' + is_admitting y ≤ card r key s + is_admitting x) ⊎ (card r key s' < limit)
  unfolding advance
  advance-le ready clock s = inl (omega arith)
  advance-le (timed now) clock s = inl (omega (arith, trim-le s now))
  advance-le (trimmed now) clock s = elim (Bool-cases (ltb (card r key s) limit)) [
    | inl y ↦ inr (ground (arith, y))
    | inr y ↦ inl (rw y (omega arith))
  ]
  advance-le (admitting now count) clock s = inl (omega (arith, zadd-le r key s now))
  advance-le (added now count) clock s = inl (omega (arith, expire-same r key s (seconds (w + 1))))
  advance-le (rejecting now) clock s = inl (omega arith)
  advance-le (answered result) clock s = inl (omega arith)

  take_turn-le :
      (i clock : ℕ) (ws : List Worker) (s : State)
      → let (ws', s') = take_turn r key limit w i clock ws s in
        (length ws' ≡ length ws)
        × ((card r key s' + admissions ws' ≤ card r key s + admissions ws)
            ⊎ (card r key s' < limit))
  unfolding take_turn
  take_turn-le i clock [] s = (refl, inl (omega arith))
  take_turn-le zero clock (x ∷ ws) s =
      (refl, elim (advance-le x clock s) [ inl h ↦ inl (omega (arith, h)) | inr h ↦ inr h ])
  take_turn-le (suc i) clock (x ∷ ws) s =
      let rest = take_turn-le i clock ws s in
      (omega (arith, rest.0), elim rest.1 [ inl h ↦ inl (omega (arith, h)) | inr h ↦ inr h ])

  -- The entries and the admissions under way stay below the limit and the number of workers.
  abbrev pub IsWithin : ℕ → List Worker × State → Type 0
  IsWithin n (ws, s) = (length ws ≡ n) × (card r key s + admissions ws < limit + n)

  perform-IsWithin :
      (n : ℕ) (a : Action) (system : List Worker × State)
      → IsWithin n system
      → IsWithin n (perform r key limit w a system)
  unfolding perform
  perform-IsWithin n (turn i clock) (ws, s) (len, h) =
      let t = take_turn-le i clock ws s in
      (
        omega (arith, t.0, len),
        elim t.1 [
          | inl k ↦ omega (arith, h, k)
          | inr k ↦
              omega (arith, k, t.0, len, admissions-le (take_turn r key limit w i clock ws s).0)
        ],
      )
  perform-IsWithin n (serve i) (ws, s) (len, h) =
      let next = next-admissions i ws in (omega (arith, next.1, len), omega (arith, next.0, h))
  perform-IsWithin n (wait d) (ws, s) (len, h) = (len, omega (arith, elapse-le r key s d, h))

  perform_all-IsWithin :
      (n : ℕ) (actions : List Action) (system : List Worker × State)
      → IsWithin n system
      → IsWithin n (perform_all r key limit w actions system)
  unfolding perform_all
  perform_all-IsWithin n [] system h = h
  perform_all-IsWithin n (a ∷ actions) system h =
      perform_all-IsWithin n actions (perform r key limit w a system)
        (perform-IsWithin n a system h)

  -- When several workers run `check` for one key, with one limit and window, their commands
  -- interleave in any order, time passes between them, and each takes new requests when it has
  -- answered, the sorted set, if it begins within the limit, never holds more than the limit
  -- and one for each worker but the first.
  pub overshoot_bounded :
      (others : ℕ) (actions : List Action) (s : State)
      → card r key s ≤ limit
      → card r key (perform_all r key limit w actions (all_ready (suc others), s)).1
        ≤ limit + others
  overshoot_bounded others actions s h =
      let start = idle (suc others) in
      let end =
        perform_all-IsWithin (suc others) actions (all_ready (suc others), s)
          (start.0, omega (arith, start.1, h)) in
      omega (arith, end.1)
