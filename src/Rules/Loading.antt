-- ===== src/Rules/Loading.antt =====
-- `_load_into_cache` of app/models/repositories/rule_repository.py reads the table and then writes to
-- Redis: requests of other processes may come in between, and invalidate a list that is not there yet.
use rate_guardian.Base.{
  true, ◌*◌, ◌≤◌, ℕ, zero, suc, ◌≡◌, refl, Option, none, some, List, [], ◌∷◌, inl, inr, arith,
  Option-cases,
}
use rate_guardian.Models.{rate_per_second, Rule, CachedRule}
use rate_guardian.Redis.{Redis, json, cache_key}
use rate_guardian.Table.{Table}
use rate_guardian.Rules.{
  RuleCreate, is_valid, new_rule, create, create_rule, rule_id, cache_ttl, World, payload,
  load_into_cache,
}
use rate_guardian.Rules.Cache.{Request, cached, creates, invalidated, serve_one}
use rate_guardian.Rules.Fading.{Fading, gone_lem, serve_one-Fading}

-- A request that runs as a whole, a process that reads the rules, and the process at a position among
-- those that have read them, which stores its list.
pub data Action : Type 0 where
  requests : Request → Action
  reads : Action
  stores : ℕ → Action

abbrev pub list_at : ℕ → List (List CachedRule) → Option (List CachedRule)
list_at i [] = none
list_at zero (rows ∷ lists) = some rows
list_at (suc i) (rows ∷ lists) = list_at i lists

abbrev pub without : ℕ → List (List CachedRule) → List (List CachedRule)
without i [] = []
without zero (rows ∷ lists) = lists
without (suc i) (rows ∷ lists) = rows ∷ without i lists

module _ (r : Redis) (t : Table Rule rule_id) where
  -- The world, and the lists that processes have read and not stored yet.
  abbrev pub Site : Type 0
  Site = World r t × List (List CachedRule)

  -- The second half of `_load_into_cache`.
  unfoldable pub store_rows : List CachedRule → World r t → World r t
  store_rows rows w = record w { redis = r.setex w.redis cache_key cache_ttl (json rows) }

  -- `none` is an exception.
  unfoldable pub act : Action → Site → Option Site
  unfolding store_rows
  act (requests q) (w, lists) = elim (serve_one r t q w) [
    | none ↦ none
    | some w' ↦ some (w', lists)
  ]
  act reads (w, lists) = some (w, payload r t w.db ∷ lists)
  act (stores i) (w, lists) = elim (list_at i lists) [
    | none ↦ some (w, lists)
    | some rows ↦ some (store_rows rows w, without i lists)
  ]

  unfoldable pub act_all : List Action → Site → Option Site
  act_all [] site = some site
  act_all (a ∷ actions) site = elim (act a site) [
    | none ↦ none
    | some site' ↦ act_all actions site'
  ]

  -- The two halves with nothing in between are the whole.
  halves-load_into_cache :
      (w : World r t) (lists : List (List CachedRule))
      → act_all (reads ∷ stores 0 ∷ []) (w, lists) ≡ some ((load_into_cache r t w).1, lists)
  unfolding act_all act store_rows load_into_cache
  halves-load_into_cache w lists = refl

  stored-Fading : (rows : List CachedRule) (w : World r t) → Fading (cached r t (store_rows rows w))
  unfolding store_rows
  stored-Fading rows w =
      inr (rows, cache_ttl, rw r.strings-setex refl, rw r.strings-setex refl, omega arith)

  act-Fading :
      (a : Action) (site : Site)
      → Fading (cached r t site.0)
      → (site' : Site) × (act a site ≡ some site') × Fading (cached r t site'.0)
  unfolding act
  act-Fading (requests q) (w, lists) h =
      let (w', e, h') = serve_one-Fading r t q w h in ((w', lists), rw (e, act) refl, h')
  act-Fading reads (w, lists) h = ((w, payload r t w.db ∷ lists), refl, h)
  act-Fading (stores i) (w, lists) h = elim (Option-cases (list_at i lists)) [
    | inl e ↦ ((w, lists), rw (e, act) refl, h)
    | inr (rows, e) ↦ ((store_rows rows w, without i lists), rw (e, act) refl, stored-Fading rows w)
  ]

  act_all-Fading :
      (actions : List Action) (site : Site)
      → Fading (cached r t site.0)
      → (site' : Site) × (act_all actions site ≡ some site') × Fading (cached r t site'.0)
  unfolding act_all
  act_all-Fading [] site h = (site, refl, h)
  act_all-Fading (a ∷ actions) site h =
      let (site', e, h') = act-Fading a site h in rw (e, act_all) (act_all-Fading actions site' h')

  created-uncached :
      (now : ℕ) (body : RuleCreate) (w : World r t)
      → is_valid body ≡ true
      → (w' : World r t) × (serve_one r t (creates true now body) w ≡ some w')
        × ((cached r t w').value ≡ none)
  unfolding serve_one create_rule create
  created-uncached now body w e = (
    (create_rule r t true now body w).1,
    refl,
    rw e (invalidated r t (record w { db = (t.insert w.db (new_rule body now)).1 })),
  )

  -- From an empty cache, any requests, whether or not Redis takes the invalidations, and any
  -- processes that read the rules and store the list later, with requests in between, return
  -- without an exception; after them the cache is empty once 60 seconds or more have passed,
  -- and at once when a valid create request comes whose invalidation Redis takes.
  pub stale_for_a_minute :
      (actions : List Action) (w : World r t) (d now : ℕ) (body : RuleCreate)
      → (cached r t w).value ≡ none
      → is_valid body ≡ true
      → 60 * rate_per_second ≤ d
      → (site : Site) × (act_all actions (w, []) ≡ some site)
        × ((r.strings (r.elapse site.0.redis d) cache_key).value ≡ none)
        × (w' : World r t) × (serve_one r t (creates true now body) site.0 ≡ some w')
        × ((cached r t w').value ≡ none)
  stale_for_a_minute actions w d now body e v h =
      let (site, e', fading) = act_all-Fading actions (w, []) (inl e) in
      let c = cached r t site.0 in
      let (w', answer, empty) = created-uncached now body site.0 v in
      (site, e', rw r.strings-elapse (gone_lem d c.value c.ttl fading h), w', answer, empty)
