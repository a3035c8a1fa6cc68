-- ===== src/Rules/Frame.antt =====
-- The requests of app/controllers/rules.py write to the cache's key of Redis and to no other.
use rate_guardian.Base.{ℕ, ◌≡◌, refl, Bool, false, Bool-cases, Option-cases, inl, inr}
use rate_guardian.Models.{Rule}
use rate_guardian.Redis.{Redis, StringKey, key_eq, cache_key}
use rate_guardian.Table.{Table}
use rate_guardian.Rules.{
  RuleCreate, is_valid, rule_id, World, invalidate_cache, create, set_active, delete, get_by_id,
  create_rule, toggle_rule, delete_rule,
}

module _ (r : Redis) (t : Table Rule rule_id) (w : World r t) (up : Bool) (j : StringKey)
    (other : key_eq cache_key j ≡ false) where
  strings-invalidate : r.strings (invalidate_cache r t up w.redis) j ≡ r.strings w.redis j
  unfolding invalidate_cache
  strings-invalidate = elim (Bool-cases up) [
    | inl y ↦ rw y (rw (r.strings-delete, other) refl)
    | inr n ↦ rw n refl
  ]

  pub strings-create :
      (now : ℕ) (body : RuleCreate)
      → r.strings (create_rule r t up now body w).1.redis j ≡ r.strings w.redis j
  unfolding create_rule create
  strings-create now body = elim (Bool-cases (is_valid body)) [
    | inl e ↦ rw e strings-invalidate
    | inr e ↦ rw e refl
  ]

  pub strings-toggle :
      (id : ℕ) → r.strings (toggle_rule r t up id w).1.redis j ≡ r.strings w.redis j
  unfolding toggle_rule set_active
  strings-toggle id = elim (Option-cases (get_by_id r t w id)) [
    | inl e ↦ rw (e, toggle_rule) refl
    | inr (rule, e) ↦ rw (e, toggle_rule) strings-invalidate
  ]

  pub strings-delete_rule :
      (id : ℕ) → r.strings (delete_rule r t up id w).1.redis j ≡ r.strings w.redis j
  unfolding delete_rule delete
  strings-delete_rule id = elim (Option-cases (get_by_id r t w id)) [
    | inl e ↦ rw (e, delete_rule) refl
    | inr (rule, e) ↦ rw (e, delete_rule) strings-invalidate
  ]
