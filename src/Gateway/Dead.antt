-- ===== src/Gateway/Dead.antt =====
-- Requests to `GatewayController.handle` of app/controllers/gateway.py for an upstream that does not
-- answer.
use rate_guardian.Base.{
  ℕ, ◌+◌, ◌-◌, ◌*◌, ◌≤◌, ◌<◌, ◌≡◌, ◌⊎◌, refl, sym, subst, String, true, Option, none, some, List,
  [], ◌∷◌, arith, All, leb, length, length-append, inl, inr, Bool-cases, first, eq_refl,
}
use rate_guardian.Models.{Rule, CachedRule, rate_per_second}
use rate_guardian.Redis.{Redis}
use rate_guardian.Table.{Table}
use rate_guardian.EventManager.{EventManager}
use rate_guardian.CircuitBreaker.{Config}
use rate_guardian.CircuitBreaker.Machine.{Mode, Breaker, ask, fail}
use rate_guardian.CircuitBreaker.Runs.{Fleet, update}
use rate_guardian.RateLimiter.{check}
use rate_guardian.Rules.{rule_id, payload, applies}
use rate_guardian.Proxy.{Sent}
use rate_guardian.Pipeline.{Response, rl_key, Ctx, Clock, Client, failed, Gate}
use rate_guardian.Pipeline.Sound.{Sound}
use rate_guardian.Pipeline.Received.{IsQuiet}
use rate_guardian.Pipeline.Tracks.{breaker_after, fleet_after}
use rate_guardian.Pipeline.Behaves.{Told, Limited, Found}
use rate_guardian.Gateway.{or_url, context}
use rate_guardian.Gateway.Handle.{Responded-after, has_client}
use rate_guardian.Gateway.Behaves.{handle-Found}
use rate_guardian.Gateway.Visits.{Visit, clock_at, visit, aged, run_visits}
use rate_guardian.Gateway.Metered.{aged-Sound}
use rate_guardian.Gateway.Shields.{IsFor, ask_open}

-- How many failures there may still be: a closed breaker opens with the one that reaches the
-- threshold, and an open one stays open until the horizon.
abbrev pub Budget : Config → ℕ → ℕ → Breaker → Type 0
Budget c horizon n b =
    ((b.mode ≡ Mode.closed) × (b.failures + n ≡ c.threshold) × (1 ≤ n))
    ⊎ ((b.mode ≡ Mode.open_until) × (d : ℕ) × (b.opens_at ≡ some d) × (horizon ≤ d))

ask-closed :
    (mode : Mode) (failures : ℕ) (opens_at : Option ℕ) (now : ℕ)
    → mode ≡ Mode.closed
    → let b : Breaker = record { mode = mode; failures = failures; opens_at = opens_at } in
      ask b now ≡ (true, b)
unfolding ask
ask-closed Mode.closed failures opens_at now e = refl
ask-closed Mode.open_until failures opens_at now e = cc
ask-closed Mode.half_open failures opens_at now e = cc

update_twice :
    (f : Fleet) (u : String) (b b' : Breaker) (after : Breaker → Breaker)
    → after b ≡ b'
    → update (update f u b) u (after (update f u b u)) u ≡ b'
update_twice f u b b' after e = rw (eq_refl u) e

fail-closed :
    (c : Config) (horizon n now : ℕ) (mode : Mode) (failures : ℕ) (opens_at : Option ℕ)
    → mode ≡ Mode.closed
    → failures + n ≡ c.threshold
    → 1 ≤ n
    → horizon ≤ now + c.recovery * rate_per_second
    → Budget c horizon
        (n - 1)
        (fail c (record { mode = mode; failures = failures; opens_at = opens_at }) now)
unfolding fail
fail-closed c horizon n now mode failures opens_at e k l h =
    rw e (elim (Bool-cases (leb c.threshold (failures + 1))) [
      | inl y ↦ rw y (inr (refl, now + c.recovery * rate_per_second, refl, h))
      | inr m ↦ rw m (inl (refl, ground arith, ground arith))
    ])

module _ (r : Redis) (t : Table Rule rule_id) (S : Type 0) (m : EventManager S) (q : IsQuiet m)
    (c : Config) (horizon : ℕ) where
  -- No more is sent than the budget has lost.
  abbrev Spends : String → ℕ → Gate r t S → Gate r t S → Type 0
  Spends u n g g' =
      (n' : ℕ) × (f : Fleet) × (length g'.sent + n' ≤ length g.sent + n)
      × Sound r t g'.world f
      × Budget c horizon n' (f u)

  -- The client raises whatever it is asked to send.
  abbrev pub Fails : Client → Type 0
  Fails client = (asked : Sent) → (exc : String) × (client asked ≡ failed exc)

  Told-Spends :
      (clock : Clock) (client : Client) (f : Fleet) (n : ℕ) (ctx : Ctx) (g : Gate r t S)
      (a : Response) (g' : Gate r t S)
      → Fails client
      → clock.at_ask < horizon
      → horizon ≤ clock.at_failure + c.recovery * rate_per_second
      → Budget c horizon n (f ctx.upstream_host)
      → Told r t S m q c clock client f (ask (f ctx.upstream_host) clock.at_ask) ctx g a g'
      → Spends ctx.upstream_host n g g'
  Told-Spends clock client f n ctx g a g' dead early late (inr (mode, d, until, after)) k =
      let b = f ctx.upstream_host in
      let same = ask_open b.mode b.failures b.opens_at d clock.at_ask mode until (omega arith) in
      let (sent, answer, sound) =
        subst (λ x. Told r t S m q c clock client f x ctx g a g') same k in
      (n, f, rw sent (omega arith), sound, inr (mode, d, until, after))
  Told-Spends clock client f n ctx g a g' dead early late (inl (mode, left, some_left)) k =
      let u = ctx.upstream_host in
      let b = f u in
      let same = ask-closed b.mode b.failures b.opens_at clock.at_ask mode in
      let (asked, sent, replays, passes, sound) =
        subst (λ x. Told r t S m q c clock client f x ctx g a g') same k in
      let (exc, raised) = dead asked in
      let left_over =
        fail-closed c horizon n clock.at_failure b.mode b.failures b.opens_at mode left some_left
          late in
      (
        n - 1,
        fleet_after r t S m q c clock client (update f u b) u (client asked),
        rw sent (omega (arith, length-append g.sent (asked ∷ []))),
        sound,
        subst (Budget c horizon (n - 1))
            (sym (
              update_twice f u b (fail c b clock.at_failure)
                (λ b. breaker_after c clock.at_failure b (client asked)) (rw raised refl)))
            left_over,
      )

  Found-Spends :
      (clock : Clock) (client : Client) (f : Fleet) (n : ℕ) (rule : Option CachedRule) (ctx : Ctx)
      (g : Gate r t S) (a : Response) (g' : Gate r t S)
      → Fails client
      → clock.at_ask < horizon
      → horizon ≤ clock.at_failure + c.recovery * rate_per_second
      → Budget c horizon n (f ctx.upstream_host)
      → Found r t S m q c clock client f rule ctx g a g'
      → Spends ctx.upstream_host n g g'
  Found-Spends clock client f n none ctx g a g' dead early late b k =
      Told-Spends clock client f n ctx g a g' dead early late b k
  Found-Spends clock client f n (some rule) ctx g a g' dead early late b k =
      let result =
        (check r g.world.redis (rl_key ctx rule) rule.limit rule.window_seconds clock.at_check).0 in
      elim (Bool-cases result.allowed) [
        | inl y ↦
            Told-Spends clock client f n ctx g a g' dead early late b
              (subst (λ x. Limited r t S m q c clock client f result x ctx g a g') y k)
        | inr out ↦
            let (sent, answer, sound) =
              subst (λ x. Limited r t S m q c clock client f result x ctx g a g') out k in
            (n, f, rw sent (omega arith), sound, b)
      ]

  module _ (netloc : String → Option String) (u : String) where
    -- A request for the upstream before the horizon, whose client raises; the recovery time of a
    -- failure that it records ends at the horizon or later.
    abbrev pub IsDead : Visit → Type 0
    IsDead v =
        IsFor netloc u horizon v
        × Fails v.client
        × (horizon ≤ v.at_failure + c.recovery * rate_per_second)

    visit-Spends :
        (now : ℕ) (v : Visit) (g : Gate r t S) (f : Fleet) (n : ℕ)
        → IsDead v
        → Sound r t g.world f
        → Budget c horizon n (f u)
        → Spends u n g (visit r t S c m netloc now v g).1
    visit-Spends now v g f n ((host, place, e, l, same, early), dead, late) h b =
        let (ip, known) = has_client v.request host e in
        let clock = clock_at now v in
        let ctx =
          context r t S v.upstream_url (or_url place v.upstream_url) v.request v.start_time ip in
        let rule = first (applies v.request.path) (payload r t g.world.db) in
        let x = visit r t S c m netloc now v g in
        Responded-after r t S (Found r t S m q c clock v.client f rule ctx g) (Spends u n g)
          (λ a g' k.
            subst (λ name. Spends name n g g') same
              (Found-Spends clock v.client f n rule ctx g a g' dead early late
                (subst (λ name. Budget c horizon n (f name)) (sym same) b) k))
          x.0 x.1
          (handle-Found r t S m q c clock v.client v.detail netloc v.upstream_url v.request
            v.start_time g f ip place known l h)

    -- In a world where the cache agrees with the table and the breakers' keys hold states, of
    -- which that of one upstream is closed and `n` failures short of the threshold, with `n`
    -- not 0, or is open until a deadline that is a horizon or later, and with handlers that
    -- do not raise: whatever requests for the upstream follow one another, whose peers have
    -- addresses and whose URLs `urlparse` reads, whose client raises whatever it is asked to
    -- send, which read the clock before the horizon for the breaker, and whose reading for a
    -- failure plus the recovery time is the horizon or later, at most `n` are sent.
    pub dead_upstream_spared :
        (vs : List Visit) (now : ℕ) (g : Gate r t S) (f : Fleet) (n : ℕ)
        → All IsDead vs
        → Sound r t g.world f
        → Budget c horizon n (f u)
        → length (run_visits r t S c m netloc now vs g).1.sent ≤ length g.sent + n
    unfolding run_visits
    dead_upstream_spared [] now g f n p h b = omega arith
    dead_upstream_spared (v ∷ vs) now g f n p h b =
        let later = now + v.gap in
        let before = aged r t S c m netloc g v.gap in
        let (n', f', count, sound, b') =
          visit-Spends later v before f n p.0 (aged-Sound r t S c m netloc g v.gap f h) b in
        let rest =
          dead_upstream_spared vs later (visit r t S c m netloc later v before).1 f' n' p.1 sound
            b' in
        omega (arith, count, rest)
