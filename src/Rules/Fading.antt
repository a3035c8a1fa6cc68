-- ===== src/Rules/Fading.antt =====
-- When Redis misses invalidations, the cached rules of app/models/repositories/rule_repository.py
-- may differ from the table, for the 60 seconds of `_CACHE_TTL`.
use rate_guardian.Base.{
  ℕ, ◌-◌, ◌≤◌, ◌≡◌, refl, String, Bool, true, false, Option, none, some, List, leb, arith, ◌⊎◌, inl,
  inr, Bool-cases, Option-cases,
}
use rate_guardian.Models.{Rule, CachedRule}
use rate_guardian.Redis.{Redis, Value, json, StringCell, age_string, cache_key}
use rate_guardian.Table.{Table}
use rate_guardian.Rules.{
  is_valid, rule_id, cache_ttl, load_json, World, invalidate_cache, create, set_active, delete,
  get_by_id, payload, load_from_cache, load_into_cache, match, create_rule, toggle_rule,
  delete_rule,
}
use rate_guardian.Rules.Cache.{
  Request, creates, toggles, deletes, matches, waits, cached, serve_one, invalidated,
}

-- What is cached is a list of rules, with a minute to live at most.
abbrev pub Fading : StringCell → Type 0
Fading c =
    (c.value ≡ none)
    ⊎ ((rows : List CachedRule) × (rest : ℕ) × (c.value ≡ some (json rows))
        × (c.ttl ≡ some rest)
        × (rest ≤ cache_ttl))

age_lem :
    (d : ℕ) (v : Option Value) (ttl : Option ℕ)
    → Fading (record { value = v; ttl = ttl })
    → Fading (age_string d (record { value = v; ttl = ttl }))
age_lem d v none h = h
age_lem d v (some rest) (inl e) = elim (Bool-cases (leb rest d)) [
  | inl y ↦ rw y (inl refl)
  | inr n ↦ rw n (inl e)
]
age_lem d v (some rest) (inr (rows, left, e, f, k)) = elim (Bool-cases (leb rest d)) [
  | inl y ↦ rw y (inl refl)
  | inr n ↦ rw n (inr (rows, rest - d, e, refl, ground arith))
]

pub gone_lem :
    (d : ℕ) (v : Option Value) (ttl : Option ℕ)
    → Fading (record { value = v; ttl = ttl })
    → cache_ttl ≤ d
    → (age_string d (record { value = v; ttl = ttl })).value ≡ none
gone_lem d v none (inl e) h = e
gone_lem d v none (inr (rows, left, e, f, k)) h = cc
gone_lem d v (some rest) (inl e) h = elim (Bool-cases (leb rest d)) [
  | inl y ↦ rw y refl
  | inr n ↦ rw n e
]
gone_lem d v (some rest) (inr (rows, left, e, f, k)) h =
    let y : leb rest d ≡ true = ground arith in rw y refl

module _ (r : Redis) (t : Table Rule rule_id) where
  invalidate-Fading :
      (up : Bool) (w : World r t)
      → Fading (cached r t w)
      → Fading (r.strings (invalidate_cache r t up w.redis) cache_key)
  unfolding invalidate_cache
  invalidate-Fading true w h = inl (invalidated r t w)
  invalidate-Fading false w h = h

  match-Fading :
      (path : String) (w : World r t)
      → Fading (cached r t w)
      → (w' : World r t) × (serve_one r t (matches path) w ≡ some w') × Fading (cached r t w')
  unfolding serve_one match load_from_cache load_into_cache load_json
  match-Fading path w (inl e) = (
    record w { redis = r.setex w.redis cache_key cache_ttl (json (payload r t w.db)) },
    rw (e, serve_one, match) refl,
    inr (
      payload r t w.db,
      cache_ttl,
      rw r.strings-setex refl,
      rw r.strings-setex refl,
      omega arith,
    ),
  )
  match-Fading path w (inr (rows, rest, e, f, k)) =
      (w, rw (e, serve_one, match) refl, inr (rows, rest, e, f, k))

  pub serve_one-Fading :
      (q : Request) (w : World r t)
      → Fading (cached r t w)
      → (w' : World r t) × (serve_one r t q w ≡ some w') × Fading (cached r t w')
  unfolding serve_one create_rule toggle_rule delete_rule create set_active delete
  serve_one-Fading (creates up now body) w h = elim (Bool-cases (is_valid body)) [
    | inl e ↦ (_, refl, rw e (invalidate-Fading up w h))
    | inr e ↦ (_, refl, rw e h)
  ]
  serve_one-Fading (toggles up id) w h = elim (Option-cases (get_by_id r t w id)) [
    | inl e ↦ (_, refl, rw (e, toggle_rule) h)
    | inr (rule, e) ↦ (_, refl, rw (e, toggle_rule) (invalidate-Fading up w h))
  ]
  serve_one-Fading (deletes up id) w h = elim (Option-cases (get_by_id r t w id)) [
    | inl e ↦ (_, refl, rw (e, delete_rule) h)
    | inr (rule, e) ↦ (_, refl, rw (e, delete_rule) (invalidate-Fading up w h))
  ]
  serve_one-Fading (matches path) w h = match-Fading path w h
  serve_one-Fading (waits d) w h =
      (_, refl, rw r.strings-elapse (age_lem d (cached r t w).value (cached r t w).ttl h))
