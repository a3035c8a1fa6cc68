-- ===== src/Gateway/Visited.antt =====
-- What one request to `GatewayController.handle` of app/controllers/gateway.py does to the sorted set of
-- a key of the limiter, and how much it sends.
use rate_guardian.Base.{
  ℕ, ◌-◌, ◌≤◌, ◌<◌, ◌≡◌, ◌⊎◌, refl, sym, ap, ◌∙◌, subst, String, Bool, true, false, Option, some,
  List, All, first, length, Bool-cases, Option-cases, inl, inr, ◌==◌, eq_iff,
}
use rate_guardian.Models.{Rule, CachedRule}
use rate_guardian.Redis.{Redis}
use rate_guardian.Table.{Table}
use rate_guardian.EventManager.{EventManager}
use rate_guardian.CircuitBreaker.{Config}
use rate_guardian.CircuitBreaker.Runs.{Fleet}
use rate_guardian.RateLimiter.{seconds}
use rate_guardian.RateLimiter.Stands.{Stands}
use rate_guardian.Rules.{rule_id, payload, applies}
use rate_guardian.Pipeline.{Response, Gate}
use rate_guardian.Pipeline.Sound.{Sound}
use rate_guardian.Pipeline.Received.{IsQuiet}
use rate_guardian.Pipeline.Meters.{Checked, Still, gateway-Checked, gateway-Unchecked}
use rate_guardian.Gateway.{or_url, context, get_client_ip}
use rate_guardian.Gateway.Handle.{Responded-after, has_client, handle-Responded, handle-Handled}
use rate_guardian.Gateway.Forwards.{handle-Proxied}
use rate_guardian.Gateway.Visits.{Visit, clock_at, counted_key, counts_for, counts, visit}
use rate_guardian.Gateway.Metered.{
  Elsewhere, Counted, Checked-Counted, Checked-Elsewhere, IsServed, Limits, IsLimited, few_sent,
  counts-known,
}

module _ (r : Redis) (t : Table Rule rule_id) (S : Type 0) (c : Config) (m : EventManager S)
    (netloc : String → Option String) (q : IsQuiet m) (key : String) (limit w : ℕ) where
  abbrev pub rules_of : Gate r t S → List CachedRule
  rules_of g = payload r t g.world.db

  -- A request is counted under the key, or leaves it alone.
  abbrev pub Meets : Bool → ℕ → List ℕ → Gate r t S → Gate r t S → Type 0
  Meets counted now history g g' =
      ((counted ≡ true) × Counted r t S key limit w now history g g')
      ⊎ ((counted ≡ false) × Elsewhere r t S key g g')

  Meets-some :
      (now : ℕ) (history : List ℕ) (g g' : Gate r t S) (v : Visit) (ip place : String)
      (rule : CachedRule) (a : Response)
      → Stands (seconds w) now (r.zsets g.world.redis key) history
      → All (λ x. x < now) (r.zsets g.world.redis key).members
      → Limits key limit w ip (some rule)
      → let ctx =
          context r t S v.upstream_url (or_url place v.upstream_url) v.request v.start_time ip in
        Checked r t S m q (clock_at now v) rule ctx g a g'
        → Meets (counts_for key ip (some rule)) now history g g'
  Meets-some now history g g' v ip place rule a h p fits k =
      let ctx =
        context r t S v.upstream_url (or_url place v.upstream_url) v.request v.start_time ip in
      let mine = counted_key ip rule in
      elim (Bool-cases (mine == key)) [
        | inl y ↦
            let same = (eq_iff mine key).0 y in
            let (l, n) = fits y in
            inl (
              y,
              rw (← same, ← l, ← n)
                  (Checked-Counted r t S m q v rule now history ctx g g' a (rw (n, same) h)
                    (rw same p) k),
            )
        | inr n ↦ inr (n, Checked-Elsewhere r t S m q v rule now ctx g g' a key n k)
      ]

  -- What a request does.
  pub record Visited (now : ℕ) (history : List ℕ) (v : Visit) (g g' : Gate r t S) : Type 0 where
    pub fleet : Fleet
    pub sound : Sound r t g'.world fleet
    pub few : length g'.sent - length g.sent ≤ 1
    pub meets : Meets (counts key (rules_of g) v) now history g g'

  met :
      (now : ℕ) (history : List ℕ) (v : Visit) (g : Gate r t S) (f : Fleet) (ip place : String)
      → get_client_ip v.request ≡ some ip
      → netloc v.upstream_url ≡ some place
      → IsLimited key limit w (rules_of g) v
      → Sound r t g.world f
      → Stands (seconds w) now (r.zsets g.world.redis key) history
      → All (λ x. x < now) (r.zsets g.world.redis key).members
      → Meets (counts key (rules_of g) v) now history g (visit r t S c m netloc now v g).1
  met now history v g f ip place e l fits h stands strict =
      let rules = rules_of g in
      let ctx =
        context r t S v.upstream_url (or_url place v.upstream_url) v.request v.start_time ip in
      let clock = clock_at now v in
      let x = visit r t S c m netloc now v g in
      let found = counts-known key ip rules v e in
      let as_met = λ (b : Bool). Meets b now history g x.1 in
      elim (Option-cases (first (applies v.request.path) rules)) [
        | inl n ↦ subst as_met (sym (found ∙ ap (counts_for key ip) n)) (
            Responded-after r t S (Still r t S m q clock ctx g) (Meets false now history g)
              (λ a g' k. inr (refl, (k.0, k.1 key))) x.0 x.1
              (handle-Responded r t S (Still r t S m q clock) c m clock v.client v.detail netloc
                v.upstream_url v.request v.start_time g f ip place e l q h
                (gateway-Unchecked r t S m q clock c v.client v.detail ctx g h.coherent n)))
        | inr (rule, s) ↦ subst as_met (sym (found ∙ ap (counts_for key ip) s)) (
            Responded-after r t S (Checked r t S m q clock rule ctx g)
              (Meets (counts_for key ip (some rule)) now history g)
              (λ a g' k.
                Meets-some now history g g' v ip place rule a stands strict
                  (subst (Limits key limit w ip) s (fits ip e)) k)
              x.0 x.1
              (handle-Responded r t S (Checked r t S m q clock rule) c m clock v.client v.detail
                netloc v.upstream_url v.request v.start_time g f ip place e l q h
                (gateway-Checked r t S m q clock c v.client v.detail rule ctx g h.coherent s)))
      ]

  pub visited :
      (now : ℕ) (history : List ℕ) (v : Visit) (g : Gate r t S) (f : Fleet)
      → IsServed netloc v
      → IsLimited key limit w (rules_of g) v
      → Sound r t g.world f
      → Stands (seconds w) now (r.zsets g.world.redis key) history
      → All (λ x. x < now) (r.zsets g.world.redis key).members
      → Visited now history v g (visit r t S c m netloc now v g).1
  visited now history v g f (host, place, e, l) fits h stands strict =
      let (ip, known) = has_client v.request host e in
      let clock = clock_at now v in
      let x = visit r t S c m netloc now v g in
      let (f', h') =
        Responded-after r t S _ (λ g'. (f' : Fleet) × Sound r t g'.world f') (λ a g' k. k) x.0 x.1
          (handle-Handled r t S c m clock v.client v.detail netloc v.upstream_url v.request
            v.start_time g f host place e l q h) in
      record {
        fleet = f';
        sound = h';
        few =
            Responded-after r t S _ _
              (λ a g' k. few_sent v.client v.upstream_url v.request g.sent g'.sent a k) x.0 x.1
              (handle-Proxied r t S c m clock v.client v.detail netloc v.upstream_url v.request
                v.start_time g f host place e l q h);
        meets = met now history v g f ip place known l fits h stands strict;
      }
