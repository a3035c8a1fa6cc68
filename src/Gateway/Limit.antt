-- ===== src/Gateway/Limit.antt =====
-- The limit of a rule against what `GatewayController.handle` of app/controllers/gateway.py sends to
-- the upstream, over requests that follow one another.
use rate_guardian.Base.{
  ℕ, ◌+◌, ◌-◌, ◌≤◌, ◌<◌, ◌≡◌, sym, subst, String, Bool, false, Option, List, [], ◌∷◌, ◌++◌, arith,
  All, length, inl, inr, if◌then◌else◌,
}
use rate_guardian.Models.{Rule}
use rate_guardian.Redis.{Redis, vacant_zset}
use rate_guardian.Table.{Table}
use rate_guardian.EventManager.{EventManager}
use rate_guardian.CircuitBreaker.{Config}
use rate_guardian.CircuitBreaker.Runs.{Fleet}
use rate_guardian.RateLimiter.{seconds}
use rate_guardian.RateLimiter.Window.{admits, admit, load, load-append, IsBounded, admit-IsBounded}
use rate_guardian.RateLimiter.Stands.{Stands, age-Stands, age-strict}
use rate_guardian.RateLimiter.Sliding.{vacant-Stands}
use rate_guardian.Rules.{rule_id, payload}
use rate_guardian.Pipeline.{Gate}
use rate_guardian.Pipeline.Sound.{Sound}
use rate_guardian.Pipeline.Received.{IsQuiet}
use rate_guardian.Gateway.Visits.{Visit, times, gaps, visit, aged, sends}
use rate_guardian.Gateway.Metered.{times-load, IsServed, IsLimited, nothing_sent, aged-Sound}
use rate_guardian.Gateway.Visited.{visited}

module _ (r : Redis) (t : Table Rule rule_id) (S : Type 0) (c : Config) (m : EventManager S)
    (netloc : String → Option String) (q : IsQuiet m) (key : String) (limit w : ℕ) where
  -- A history within the limit, of which what was sent is a part.
  record Metered (history : List ℕ) (sent : List ℕ) : Type 0 where
    pub end : List ℕ
    pub bounded : IsBounded limit (seconds w) end
    pub part :
        (u : ℕ) → load u (seconds w) history + load u (seconds w) sent ≤ load u (seconds w) end

  Metered-counted :
      (now n : ℕ) (history rest : List ℕ)
      → n ≤ 1
      → (admits limit (seconds w) history now ≡ false → n ≡ 0)
      → Metered (admit limit (seconds w) history now) rest
      → Metered history (times n now ++ rest)
  Metered-counted now n history rest k h next = record {
    end = next.end;
    bounded = next.bounded;
    part = λ u.
        let first_part = times-load u limit (seconds w) now n history k h in
        let rest_part = next.part u in
        omega (arith, first_part, rest_part, load-append u (seconds w) (times n now) rest);
  }

  sends-Metered :
      (now : ℕ) (history : List ℕ) (vs : List Visit) (g : Gate r t S) (f : Fleet)
      → All (IsServed netloc) vs
      → All (IsLimited key limit w (payload r t g.world.db)) vs
      → All (λ gap. 0 < gap) (gaps vs)
      → Sound r t g.world f
      → Stands (seconds w) now (r.zsets g.world.redis key) history
      → IsBounded limit (seconds w) history
      → Metered history (sends r t S c m netloc key now vs g)
  unfolding sends
  sends-Metered now history [] g f served fits p h stands bounded = record {
    end = history;
    bounded = bounded;
    part = λ u. omega arith;
  }
  sends-Metered now history (v ∷ vs) g f served fits p h stands bounded =
      let later = now + v.gap in
      let before = aged r t S c m netloc g v.gap in
      let after = (visit r t S c m netloc later v before).1 in
      let rest = sends r t S c m netloc key later vs after in
      let aged_stands : Stands (seconds w) later (r.zsets before.world.redis key) history =
        rw r.zsets-elapse
          (age-Stands (seconds w) now v.gap (r.zsets g.world.redis key) history stands) in
      let strict : All (λ x. x < later) (r.zsets before.world.redis key).members =
        rw r.zsets-elapse (age-strict now v.gap (r.zsets g.world.redis key) stands.past p.0) in
      let one =
        visited r t S c m netloc q key limit w later history v before f served.0 fits.0
          (aged-Sound r t S c m netloc g v.gap f h) aged_stands strict in
      let sent = length after.sent - length before.sent in
      let as_sent = λ (b : Bool). Metered history (if b then times sent later ++ rest else rest) in
      elim one.meets [
        | inl (y, k) ↦ subst as_sent (sym y) (
            Metered-counted later sent history rest one.few
              (λ n. nothing_sent before.sent after.sent (k.unsent n))
              (sends-Metered later (admit limit (seconds w) history later) vs after one.fleet
                served.1
                (subst (λ db. All (IsLimited key limit w (payload r t db)) vs) (sym k.db) fits.1)
                p.1 one.sound k.stands (admit-IsBounded limit (seconds w) history later bounded)))
        | inr (n, k) ↦ subst as_sent (sym n) (
            sends-Metered later history vs after one.fleet served.1
              (subst (λ db. All (IsLimited key limit w (payload r t db)) vs) (sym k.0) fits.1) p.1
              one.sound (rw k.1 aged_stands) bounded)
      ]

  -- For a key of the limiter with an empty sorted set, in a world where the cache agrees with
  -- the table and the breakers' keys hold states, with handlers that do not raise, whatever
  -- requests follow one another with time passing between any two, whose peers have addresses
  -- and whose URLs `urlparse` reads, and whose rule, if it counts them under the key, has the
  -- one limit and window: of the requests that `handle` sends to the upstream for those that
  -- their rule counts under the key, at most `limit` lie in any window of `window_seconds`.
  pub sends_within_limit :
      (vs : List Visit) (now : ℕ) (g : Gate r t S) (f : Fleet) (u : ℕ)
      → All (IsServed netloc) vs
      → All (IsLimited key limit w (payload r t g.world.db)) vs
      → All (λ gap. 0 < gap) (gaps vs)
      → Sound r t g.world f
      → r.zsets g.world.redis key ≡ vacant_zset
      → load u (seconds w) (sends r t S c m netloc key now vs g) ≤ limit
  sends_within_limit vs now g f u served fits p h e =
      let metered =
        sends-Metered now [] vs g f served fits p h (rw e (vacant-Stands r w now))
          (λ u. omega arith) in
      omega (arith, metered.part u, metered.bounded u)
