-- ===== src/Rules/Cache.antt =====
-- The cached list of rules in app/models/repositories/rule_repository.py against the table: what
-- keeps them the same, and for how long they may differ when Redis misses an invalidation.
use rate_guardian.Base.{
  ℕ, ◌≡◌, refl, ap, ◌∙◌, String, Bool, true, false, Option, none, some, List, [], ◌∷◌, leb, first,
  ◌⊎◌, inl, inr, Bool-cases, Option-cases,
}
use rate_guardian.Models.{Rule}
use rate_guardian.Redis.{Redis, Value, json, StringCell, age_string, StringKey, key_eq, cache_key}
use rate_guardian.Table.{Table}
use rate_guardian.Rules.{
  RuleCreate, is_valid, rule_id, cache_ttl, applies, load_json, World, invalidate_cache, create,
  set_active, delete, get_by_id, payload, load_from_cache, load_into_cache, match, create_rule,
  toggle_rule, delete_rule,
}

-- A request that reads or writes rules, or time that passes. The Boolean of a write says whether
-- Redis takes the invalidation.
pub data Request : Type 0 where
  creates : Bool → ℕ → RuleCreate → Request
  toggles deletes : Bool → ℕ → Request
  matches : String → Request
  waits : ℕ → Request

-- Redis takes every invalidation.
abbrev pub IsReliable : List Request → Type 0
IsReliable [] = Unit
IsReliable (creates up now body ∷ qs) = (up ≡ true) × IsReliable qs
IsReliable (toggles up id ∷ qs) = (up ≡ true) × IsReliable qs
IsReliable (deletes up id ∷ qs) = (up ≡ true) × IsReliable qs
IsReliable (_ ∷ qs) = IsReliable qs

pub age-value :
    (d : ℕ) (v : Option Value) (ttl : Option ℕ)
    → let c = age_string d (record { value = v; ttl = ttl }) in (c.value ≡ none) ⊎ (c.value ≡ v)
age-value d v none = inr refl
age-value d v (some rest) = elim (Bool-cases (leb rest d)) [
  | inl e ↦ inl (rw e refl)
  | inr e ↦ inr (rw e refl)
]

module _ (r : Redis) (t : Table Rule rule_id) where
  abbrev pub cached : World r t → StringCell
  cached w = r.strings w.redis cache_key

  -- Nothing is cached, or what the table would give.
  abbrev pub Coherent : World r t → Type 0
  Coherent w = ((cached w).value ≡ none) ⊎ ((cached w).value ≡ some (json (payload r t w.db)))

  -- One request; `none` is an exception.
  unfoldable pub serve_one : Request → World r t → Option (World r t)
  serve_one (creates up now body) w = some (create_rule r t up now body w).1
  serve_one (toggles up id) w = some (toggle_rule r t up id w).1
  serve_one (deletes up id) w = some (delete_rule r t up id w).1
  serve_one (matches path) w = elim (match r t w path) [ none ↦ none | some (rule, w') ↦ some w' ]
  serve_one (waits d) w = some (record w { redis = r.elapse w.redis d })

  unfoldable pub serve : List Request → World r t → Option (World r t)
  serve [] w = some w
  serve (q ∷ qs) w = elim (serve_one q w) [ none ↦ none | some w' ↦ serve qs w' ]

  -- What `match` answers and leaves; it writes to its own key only.
  pub record Matched (w : World r t) (path : String) : Type 0 where
    pub after : World r t
    pub answer : match r t w path ≡ some (first (applies path) (payload r t w.db), after)
    pub db : after.db ≡ w.db
    pub coherent : Coherent after
    pub frame :
        (j : StringKey) → key_eq cache_key j ≡ false → r.strings after.redis j ≡ r.strings w.redis j
    pub sets : (z : String) → r.zsets after.redis z ≡ r.zsets w.redis z

  pub match_lem : (w : World r t) (path : String) → Coherent w → Matched w path
  unfolding match load_from_cache load_into_cache load_json
  match_lem w path (inl e) = record {
    after = record w { redis = r.setex w.redis cache_key cache_ttl (json (payload r t w.db)) };
    answer = rw (e, match) refl;
    db = refl;
    coherent = inr (rw r.strings-setex refl);
    frame = λ j k. rw r.strings-setex (rw k refl);
    sets = λ z. rw r.zsets-setex refl;
  }
  match_lem w path (inr e) = record {
    after = w;
    answer = rw (e, match) refl;
    db = refl;
    coherent = inr e;
    frame = λ j k. refl;
    sets = λ z. refl;
  }

  pub invalidated :
      (w : World r t) → (r.strings (invalidate_cache r t true w.redis) cache_key).value ≡ none
  unfolding invalidate_cache
  invalidated w = rw r.strings-delete refl

  pub create-Coherent :
      (now : ℕ) (body : RuleCreate) (w : World r t)
      → Coherent w
      → Coherent (create_rule r t true now body w).1
  unfolding create_rule create
  create-Coherent now body w h = elim (Bool-cases (is_valid body)) [
    | inl e ↦ rw e (inl (invalidated w))
    | inr e ↦ rw e h
  ]

  pub toggle-Coherent :
      (id : ℕ) (w : World r t) → Coherent w → Coherent (toggle_rule r t true id w).1
  unfolding toggle_rule set_active
  toggle-Coherent id w h = elim (Option-cases (get_by_id r t w id)) [
    | inl e ↦ rw (e, toggle_rule) h
    | inr (rule, e) ↦ rw (e, toggle_rule) (inl (invalidated w))
  ]

  pub delete-Coherent :
      (id : ℕ) (w : World r t) → Coherent w → Coherent (delete_rule r t true id w).1
  unfolding delete_rule delete
  delete-Coherent id w h = elim (Option-cases (get_by_id r t w id)) [
    | inl e ↦ rw (e, delete_rule) h
    | inr (rule, e) ↦ rw (e, delete_rule) (inl (invalidated w))
  ]

  -- Time can only empty the cache.
  pub elapse-Coherent :
      (d : ℕ) (w : World r t) → Coherent w → Coherent (record w { redis = r.elapse w.redis d })
  elapse-Coherent d w h = elim (age-value d _ _) [
    | inl e ↦ inl (aged ∙ e)
    | inr e ↦ kept h (aged ∙ e)
  ]
    where
      aged : (r.strings (r.elapse w.redis d) cache_key).value ≡ (age_string d (cached w)).value
      aged = ap (λ (c : StringCell). c.value) (r.strings-elapse w.redis d cache_key)

      after : Option Value
      after = (r.strings (r.elapse w.redis d) cache_key).value

      kept :
          Coherent w → after ≡ (cached w).value → Coherent (record w { redis = r.elapse w.redis d })
      kept (inl v) e = inl (e ∙ v)
      kept (inr v) e = inr (e ∙ v)

  match-Coherent :
      (path : String) (w : World r t)
      → Coherent w
      → (w' : World r t) × (serve_one (matches path) w ≡ some w') × Coherent w'
  unfolding serve_one
  match-Coherent path w h =
      let m = match_lem w path h in (m.after, rw (m.answer, serve_one) refl, m.coherent)

  -- From a cache that is empty or agrees with the table, any sequence of the requests that
  -- create, toggle, delete and match rules, with time passing, in which Redis takes every
  -- invalidation, ends without an exception in such a cache.
  pub serve-Coherent :
      (qs : List Request) (w : World r t)
      → IsReliable qs
      → Coherent w
      → (w' : World r t) × (serve qs w ≡ some w') × Coherent w'
  unfolding serve serve_one
  serve-Coherent [] w q h = (w, refl, h)
  serve-Coherent (creates up now body ∷ qs) w q h =
      rw q.0 (serve-Coherent qs _ q.1 (create-Coherent now body w h))
  serve-Coherent (toggles up id ∷ qs) w q h =
      rw q.0 (serve-Coherent qs _ q.1 (toggle-Coherent id w h))
  serve-Coherent (deletes up id ∷ qs) w q h =
      rw q.0 (serve-Coherent qs _ q.1 (delete-Coherent id w h))
  serve-Coherent (matches path ∷ qs) w q h =
      let (w', e, h') = match-Coherent path w h in rw (e, serve) (serve-Coherent qs w' q h')
  serve-Coherent (waits d ∷ qs) w q h = serve-Coherent qs _ q (elapse-Coherent d w h)
