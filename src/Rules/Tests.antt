-- ===== src/Rules/Tests.antt =====
-- The rules of app/models/repositories/rule_repository.py on concrete requests.
use mathlib.Core.List.{Mem, mem-cons_self, mem-cons_of_mem, not-mem-nil}
use mathlib.Core.List.Perm
use mathlib.Core.Option
use rate_guardian.Base.{
  ◌*◌, ◌↔◌, ◌++◌, arith, ℕ, ◌≤◌, ◌≡◌, refl, true, false, none, some, List, [], ◌∷◌, inl, inr,
  nat_eq, if◌then◌else◌,
}
use rate_guardian.Models.{rate_per_second, Rule, CachedRule}
use rate_guardian.Redis.{json, cache_key}
use rate_guardian.Redis.Memory.{memory, empty}
use rate_guardian.Table.Memory.{in_memory}
use rate_guardian.Fnmatch.{codes, translate, fnmatch}
use rate_guardian.Rules.{
  RuleCreate, done, not_found, is_valid, rule_id, cache_ttl, applies, to_payload, new_rule, World,
  payload, get_by_id, load_from_cache, load_json, match, create_rule, toggle_rule, delete_rule,
  set_active, invalidate_cache,
}
use rate_guardian.Rules.Cache.{
  Request, creates, toggles, deletes, matches, waits, Coherent, serve_one, serve, serve-Coherent,
}
use rate_guardian.Rules.Loading.{
  Action, reads, stores, act, act_all, store_rows, stale_for_a_minute,
}
use rate_guardian.Rules.Loading
use rate_guardian.Rules.Match.{Applies, match_sound, match_first}
use rate_guardian.Rules.Patterns.{applies_iff, applies_prefix}
use rate_guardian.Fnmatch.Fits.{Fits}
use rate_guardian.Rules.Ids.{
  UniqueIds, unique-insert, switched, get_by_id-toggle, get_by_id-delete, get_by_id-create,
  deleted_rule,
}

abbrev body : RuleCreate
body = record {
  name = "search";
  path_pattern = "/api/*";
  limit = 10;
  window_seconds = 60;
  key_type = "ip";
}

-- Two rules for the same paths.
abbrev older : Rule
older = new_rule body 5 1

abbrev newer : Rule
newer = new_rule body 9 2

abbrev TestWorld : Type 0
TestWorld = World memory (in_memory rule_id)

abbrev two_rules : TestWorld
two_rules = record { db = newer ∷ older ∷ []; redis = empty }

-- The same with the payload in the cache.
abbrev warm : TestWorld
warm = record two_rules {
  redis =
      memory.setex empty cache_key cache_ttl
        (json (payload memory (in_memory rule_id) two_rules.db));
}

abbrev requests : List Request
requests =
    matches "/api/items"
    ∷ creates true 12 body
    ∷ toggles true 1
    ∷ waits 7
    ∷ matches "/api/items"
    ∷ deletes true 2
    ∷ []

body_valid : is_valid body ≡ true
unfolding is_valid
body_valid = refl

older-Applies : Applies "/api/items" older
unfolding fnmatch
older-Applies = record { is_active = refl; fits = refl }

two-UniqueIds : UniqueIds (newer ∷ older ∷ [])
two-UniqueIds =
    unique-insert newer (older ∷ []) (newer ∷ older ∷ [])
      (λ y m. (in_memory rule_id).fresh-insert (older ∷ []) (new_rule body 9) y m) (Perm.refl _)
      (unique-insert older [] (older ∷ []) (λ y m. absurd (not-mem-nil m)) (Perm.refl _)
        (λ a b m n e. absurd (not-mem-nil m)))

two_found : get_by_id memory (in_memory rule_id) two_rules 1 ≡ some older
unfolding get_by_id
two_found = refl

warm-match :
    match memory (in_memory rule_id) warm "/api/items" ≡ some (some (to_payload older), warm)
unfolding match load_from_cache load_json fnmatch
warm-match = refl

serve-Coherent_example :
    (w : TestWorld) × (serve memory (in_memory rule_id) requests two_rules ≡ some w)
    × Coherent memory (in_memory rule_id) w
serve-Coherent_example =
    serve-Coherent memory (in_memory rule_id) requests two_rules (refl, (refl, (refl, tt)))
      (inl refl)

-- A process reads the rules, a request switches one off and invalidates the cache, and the process
-- stores what it has read.
abbrev raced : List Action
raced = reads ∷ Loading.requests (toggles true 1) ∷ stores 0 ∷ []

test_stale :
    Option.map
      (λ (site : TestWorld × List (List CachedRule)). (memory.strings site.0.redis cache_key).value)
      (act_all memory (in_memory rule_id) raced (two_rules, []))
    ≡ some (some (json (payload memory (in_memory rule_id) two_rules.db)))
unfolding act_all act store_rows serve_one toggle_rule get_by_id set_active invalidate_cache
test_stale = refl

stale_for_a_minute_example :
    (site : TestWorld × List (List CachedRule)) × (act_all memory
        (in_memory rule_id)
        raced
        (two_rules, [])
      ≡ some site)
    × ((memory.strings (memory.elapse site.0.redis (90 * rate_per_second)) cache_key).value ≡ none)
    × (w' : TestWorld) × (serve_one memory (in_memory rule_id) (creates true 12 body) site.0
        ≡ some w')
    × ((memory.strings w'.redis cache_key).value ≡ none)
stale_for_a_minute_example =
    stale_for_a_minute memory (in_memory rule_id) raced two_rules (90 * rate_per_second) 12 body
      refl body_valid (omega arith)

match_sound_example :
    (x : Rule) × Mem x two_rules.db × (to_payload x ≡ to_payload older) × Applies "/api/items" x
match_sound_example =
    match_sound memory (in_memory rule_id) warm warm "/api/items" (to_payload older) (inr refl)
      warm-match

match_first_example :
    (x : Rule) × (w : TestWorld) × (match memory (in_memory rule_id) two_rules "/api/items"
      ≡ some (some (to_payload x), w))
    × Applies "/api/items" x
    × Mem x two_rules.db
    × (x.created_at ≤ 5)
match_first_example =
    match_first memory (in_memory rule_id) two_rules "/api/items" older (inl refl)
      (mem-cons_of_mem newer mem-cons_self) older-Applies

get_by_id-toggle_example :
    get_by_id memory
      (in_memory rule_id)
      (toggle_rule memory (in_memory rule_id) true 1 two_rules).1
      2
    ≡ Option.map (switched 1 false) (get_by_id memory (in_memory rule_id) two_rules 2)
get_by_id-toggle_example =
    get_by_id-toggle memory (in_memory rule_id) true 1 two_rules older 2 two-UniqueIds two_found

get_by_id-delete_example :
    get_by_id memory
      (in_memory rule_id)
      (delete_rule memory (in_memory rule_id) true 1 two_rules).1
      2
    ≡ (if nat_eq 2 1 then none else get_by_id memory (in_memory rule_id) two_rules 2)
get_by_id-delete_example =
    get_by_id-delete memory (in_memory rule_id) true 1 two_rules older 2 two-UniqueIds two_found

get_by_id-create_example :
    (id : ℕ) × ((create_rule memory (in_memory rule_id) true 12 body two_rules).0
      ≡ done (new_rule body 12 id))
    × (get_by_id memory (in_memory rule_id) two_rules id ≡ none)
    × (get_by_id memory
          (in_memory rule_id)
          (create_rule memory (in_memory rule_id) true 12 body two_rules).1
          1
        ≡ (if nat_eq id 1
            then some (new_rule body 12 id)
            else get_by_id memory (in_memory rule_id) two_rules 1))
get_by_id-create_example =
    get_by_id-create memory (in_memory rule_id) true 12 body two_rules 1 two-UniqueIds body_valid

deleted_rule_example :
    let w = (delete_rule memory (in_memory rule_id) true 1 two_rules).1 in
    (toggle_rule memory (in_memory rule_id) false 1 w ≡ (not_found, w))
    × (delete_rule memory (in_memory rule_id) false 1 w ≡ (not_found, w))
deleted_rule_example =
    deleted_rule memory (in_memory rule_id) true false 1 two_rules older two-UniqueIds two_found

abbrev cached_rule : CachedRule
cached_rule = to_payload older

applies_iff_example :
    (applies "/api/users" cached_rule ≡ true)
    ↔ ((true ≡ true) × Fits (translate 10 (codes "/api/*")) (codes "/api/users"))
applies_iff_example = applies_iff "/api/users" cached_rule 10 (omega arith)

applies_prefix_example :
    (applies "/api/users" cached_rule ≡ true)
    ↔ ((true ≡ true) × (rest : List ℕ) × (codes "/api/users" ≡ codes "/api/" ++ rest))
applies_prefix_example =
    applies_prefix "/api/users" cached_rule (codes "/api/")
      (
        (refl, refl, refl),
        ((refl, refl, refl), ((refl, refl, refl), ((refl, refl, refl), ((refl, refl, refl), tt)))),
      )
      refl
