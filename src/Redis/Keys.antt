-- ===== src/Redis/Keys.antt =====
-- The keys of app/models/services/circuit_breaker.py (`_state_key`, `_failures_key`,
-- `_opens_at_key`) and app/models/repositories/rule_repository.py (`_CACHE_KEY`), which hold
-- strings. The sorted sets of app/models/services/rate_limiter.py are named by the last part of
-- their key. `render` and `render_zset` are the texts that go to the server.
use rate_guardian.Base.{◌≡◌, ◌↔◌, String, Bool, true, false, arith, ◌==◌, eq_iff}

pub data StringKey : Type 0 where
  state_key failures_key opens_at_key : String → StringKey
  cache_key : StringKey

abbrev pub key_eq : StringKey → StringKey → Bool
key_eq (state_key a) (state_key b) = a == b
key_eq (failures_key a) (failures_key b) = a == b
key_eq (opens_at_key a) (opens_at_key b) = a == b
key_eq cache_key cache_key = true
key_eq _ _ = false

pub key_eq_iff : (j k : StringKey) → (key_eq j k ≡ true) ↔ (j ≡ k)
key_eq_iff (state_key a) (state_key b) = ground (arith, eq_iff a b)
key_eq_iff (failures_key a) (failures_key b) = ground (arith, eq_iff a b)
key_eq_iff (opens_at_key a) (opens_at_key b) = ground (arith, eq_iff a b)
key_eq_iff cache_key cache_key = ground arith
key_eq_iff _ _ = ground arith

pub key_eq_refl : (k : StringKey) → key_eq k k ≡ true
key_eq_refl k = (key_eq_iff k k).1 (λ i. k)
