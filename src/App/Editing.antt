-- ===== src/App/Editing.antt =====
-- The rule routes of app/controllers/rules.py leave what the gateway's pipeline relies on.
use rate_guardian.Base.{◌≡◌, refl, true, false, some, [], ◌∷◌}
use rate_guardian.Models.{Rule}
use rate_guardian.Redis.{Redis, state_key, failures_key, opens_at_key, StringKey, key_eq, cache_key}
use rate_guardian.Table.{Table}
use rate_guardian.CircuitBreaker.Runs.{Fleet}
use rate_guardian.CircuitBreaker.Stored.{elapse-Holds}
use rate_guardian.Rules.{rule_id, World, create_rule, toggle_rule, delete_rule}
use rate_guardian.Rules.Cache.{
  Request, creates, toggles, deletes, matches, waits, IsReliable, serve_one, Coherent, match_lem,
  create-Coherent, toggle-Coherent, delete-Coherent, elapse-Coherent,
}
use rate_guardian.Rules.Frame.{strings-create, strings-toggle, strings-delete_rule}
use rate_guardian.Pipeline.Sound.{Sound, Holds-strings, match-Sound}

module _ (r : Redis) (t : Table Rule rule_id) (w : World r t) (f : Fleet) (h : Sound r t w f) where
  frame-Sound :
      (w' : World r t)
      → Coherent r t w'
      → ((j : StringKey) → key_eq cache_key j ≡ false → r.strings w'.redis j ≡ r.strings w.redis j)
      → Sound r t w' f
  frame-Sound w' coherent same = record {
    coherent = coherent;
    holds =
        Holds-strings r t w.redis w'.redis f
          (λ u. (same (state_key u) refl, same (failures_key u) refl, same (opens_at_key u) refl))
          h.holds;
  }

  -- A request that returns, and leaves a world of the same kind.
  pub record Kept (q : Request) : Type 0 where
    pub after : World r t
    pub answer : serve_one r t q w ≡ some after
    pub sound : Sound r t after f

  pub serve_one-Kept : (q : Request) → IsReliable (q ∷ []) → Kept q
  unfolding serve_one
  serve_one-Kept (creates up now body) e =
      let reliable : up ≡ true = e.0 in
      record {
        after = (create_rule r t up now body w).1;
        answer = refl;
        sound =
            frame-Sound _ (rw reliable (create-Coherent r t now body w h.coherent))
              (λ j other. strings-create r t w up j other now body);
      }
  serve_one-Kept (toggles up id) e =
      let reliable : up ≡ true = e.0 in
      record {
        after = (toggle_rule r t up id w).1;
        answer = refl;
        sound =
            frame-Sound _ (rw reliable (toggle-Coherent r t id w h.coherent))
              (λ j other. strings-toggle r t w up j other id);
      }
  serve_one-Kept (deletes up id) e =
      let reliable : up ≡ true = e.0 in
      record {
        after = (delete_rule r t up id w).1;
        answer = refl;
        sound =
            frame-Sound _ (rw reliable (delete-Coherent r t id w h.coherent))
              (λ j other. strings-delete_rule r t w up j other id);
      }
  serve_one-Kept (matches path) e =
      let m = match_lem r t w path h.coherent in
      record {
        after = m.after;
        answer = rw (m.answer, serve_one) refl;
        sound = match-Sound r t w path f h;
      }
  serve_one-Kept (waits d) e = record {
    after = record w { redis = r.elapse w.redis d };
    answer = refl;
    sound = record {
      coherent = elapse-Coherent r t d w h.coherent;
      holds = λ u. elapse-Holds r w.redis d u (f u) (h.holds u);
    };
  }
