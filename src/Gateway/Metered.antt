-- ===== src/Gateway/Metered.antt =====
-- The limit of a rule against what `GatewayController.handle` of app/controllers/gateway.py sends to
-- the upstream.
use rate_guardian.Base.{
  ℕ, zero, suc, ◌+◌, ◌-◌, ◌≤◌, ◌<◌, ◌≡◌, refl, sym, ◌∙◌, subst, String, true, false, Option, none,
  some, List, [], ◌∷◌, arith, All, first, length, length-append, Bool-cases, inl, inr, ◌==◌,
}
use rate_guardian.Models.{Rule, CachedRule}
use rate_guardian.CircuitBreaker.{Config}
use rate_guardian.CircuitBreaker.Runs.{Fleet}
use rate_guardian.Rules.Cache.{elapse-Coherent}
use rate_guardian.CircuitBreaker.Stored.{elapse-Holds}
use rate_guardian.Pipeline.Sound.{Sound}
use rate_guardian.Redis.{Redis}
use rate_guardian.Table.{Table}
use rate_guardian.EventManager.{EventManager}
use rate_guardian.RateLimiter.{seconds}
use rate_guardian.RateLimiter.Window.{admits, admit, load, load-append}
use rate_guardian.RateLimiter.Stands.{Stands}
use rate_guardian.RateLimiter.Sliding.{allowed-check, left-check}
use rate_guardian.RateLimiter.Effect.{zsets-check_ne}
use rate_guardian.Rules.{rule_id, applies}
use rate_guardian.Proxy.{Request, Sent}
use rate_guardian.Pipeline.{Client, Ctx, Response, Gate, rl_key}
use rate_guardian.Pipeline.Received.{IsQuiet}
use rate_guardian.Pipeline.Meters.{Checked}
use rate_guardian.Gateway.{get_client_ip}
use rate_guardian.Gateway.Forwards.{Relayed}
use rate_guardian.Gateway.Visits.{Visit, clock_at, counted_key, counts_for, counts, times, aged}

-- The sorted set of a key is left as it was, or as a check leaves it that lets in what is sent.
module _ (r : Redis) (t : Table Rule rule_id) (S : Type 0) where
  -- What a request does to a key that it is not counted under.
  abbrev pub Elsewhere : String → Gate r t S → Gate r t S → Type 0
  Elsewhere key g g' =
      (g'.world.db ≡ g.world.db) × (r.zsets g'.world.redis key ≡ r.zsets g.world.redis key)

  -- What a request does to the history that the key stands for.
  pub record Counted (key : String) (limit w now : ℕ) (history : List ℕ) (g g' : Gate r t S)
      : Type 0 where
    pub db : g'.world.db ≡ g.world.db
    pub stands :
        Stands (seconds w) now (r.zsets g'.world.redis key) (admit limit (seconds w) history now)
    pub unsent : admits limit (seconds w) history now ≡ false → g'.sent ≡ g.sent

  pub Checked-Counted :
      (m : EventManager S) (q : IsQuiet m) (v : Visit) (rule : CachedRule) (now : ℕ)
      (history : List ℕ) (ctx : Ctx) (g g' : Gate r t S) (a : Response)
      → Stands (seconds rule.window_seconds) now (r.zsets g.world.redis (rl_key ctx rule)) history
      → All (λ x. x < now) (r.zsets g.world.redis (rl_key ctx rule)).members
      → Checked r t S m q (clock_at now v) rule ctx g a g'
      → Counted (rl_key ctx rule) rule.limit rule.window_seconds now history g g'
  Checked-Counted m q v rule now history ctx g g' a h p (s, same, (left, unsent, db)) =
      let key = rl_key ctx rule in
      let stands =
        subst (λ x. Stands (seconds rule.window_seconds) now x history) (sym (same key)) h in
      let strict = subst (λ c. All (λ x. x < now) c.members) (sym (same key)) p in
      record {
        db = db;
        stands =
            rw (left key)
              (left-check r s key rule.limit rule.window_seconds now history stands strict);
        unsent = λ n.
            unsent (allowed-check r s key rule.limit rule.window_seconds now history stands ∙ n);
      }

  pub Checked-Elsewhere :
      (m : EventManager S) (q : IsQuiet m) (v : Visit) (rule : CachedRule) (now : ℕ) (ctx : Ctx)
      (g g' : Gate r t S) (a : Response) (key : String)
      → (rl_key ctx rule == key) ≡ false
      → Checked r t S m q (clock_at now v) rule ctx g a g'
      → Elsewhere key g g'
  Checked-Elsewhere m q v rule now ctx g g' a key n (s, same, (left, unsent, db)) = (
    db,
    left key
        ∙ zsets-check_ne r s (rl_key ctx rule) key rule.limit rule.window_seconds now n
        ∙ same key,
  )

-- One request is sent at most, and none that the window does not admit.
pub times-load :
    (u limit w now n : ℕ) (history : List ℕ)
    → n ≤ 1
    → (admits limit w history now ≡ false → n ≡ 0)
    → load u w history + load u w (times n now) ≤ load u w (admit limit w history now)
unfolding admit
times-load u limit w now zero history k h = elim (Bool-cases (admits limit w history now)) [
  | inl y ↦ rw y (omega (arith, load-append u w history (now ∷ [])))
  | inr n ↦ rw n (omega arith)
]
times-load u limit w now (suc zero) history k h = elim (Bool-cases (admits limit w history now)) [
  | inl y ↦ rw y (omega (arith, load-append u w history (now ∷ [])))
  | inr n ↦ let none_sent = h n in omega arith
]
times-load u limit w now (suc (suc n)) history k h = omega arith

-- The peer of the request has an address, and `urlparse` reads the URL.
abbrev pub IsServed : (String → Option String) → Visit → Type 0
IsServed netloc v =
    (host place : String) × (v.request.client ≡ some host) × (netloc v.upstream_url ≡ some place)

-- A rule that counts under the key has the limit and the window.
abbrev pub Limits : String → ℕ → ℕ → String → Option CachedRule → Type 0
Limits key limit w ip none = Unit
Limits key limit w ip (some rule) =
    counted_key ip rule == key ≡ true → (rule.limit ≡ limit) × (rule.window_seconds ≡ w)

abbrev pub IsLimited : String → ℕ → ℕ → List CachedRule → Visit → Type 0
IsLimited key limit w rules v =
    (ip : String)
    → get_client_ip v.request ≡ some ip
    → Limits key limit w ip (first (applies v.request.path) rules)

pub few_sent :
    (client : Client) (upstream_url : String) (request : Request) (before after : List Sent)
    (a : Response)
    → Relayed client upstream_url request before after a
    → length after - length before ≤ 1
few_sent client upstream_url request before after a (inl (e, h)) = rw e (omega arith)
few_sent client upstream_url request before after a (inr (asked, e, h, k)) =
    rw e (omega (arith, length-append before (asked ∷ [])))

pub nothing_sent : (before after : List Sent) → after ≡ before → length after - length before ≡ 0
nothing_sent before after e = rw e (omega arith)

pub counts-known :
    (key ip : String) (rules : List CachedRule) (v : Visit)
    → get_client_ip v.request ≡ some ip
    → counts key rules v ≡ counts_for key ip (first (applies v.request.path) rules)
counts-known key ip rules v e = rw (e, counts) refl

module _ (r : Redis) (t : Table Rule rule_id) (S : Type 0) (c : Config) (m : EventManager S)
    (netloc : String → Option String) where
  pub aged-Sound :
      (g : Gate r t S) (d : ℕ) (f : Fleet)
      → Sound r t g.world f
      → Sound r t (aged r t S c m netloc g d).world f
  aged-Sound g d f h = record {
    coherent = elapse-Coherent r t d g.world h.coherent;
    holds = λ u. elapse-Holds r g.world.redis d u (f u) (h.holds u);
  }
