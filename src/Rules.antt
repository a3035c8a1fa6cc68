-- ===== src/Rules.antt =====
-- app/models/repositories/rule_repository.py (`RuleRepository`), the routes of
-- app/controllers/rules.py and the checks of `RuleCreate` in app/views/schemas/rule.py.
--
-- `redis_up` says whether the DEL of `_invalidate_cache` gets through; where it does not, the
-- exception is caught and the cache stays as it is.
pub mod Cache
pub mod Frame
pub mod Fading
pub mod Loading
pub mod Match
pub mod Patterns
pub mod Ids
mod Tests
use Prim.Native.String.{count}
use rate_guardian.Base.{
  ℕ, ◌*◌, String, Bool, true, false, not, ◌&&◌, ◌||◌, Option, none, some, List, [], ◌∷◌, map, leb,
  nat_eq, select, first, ◌==◌, if◌then◌else◌,
}
use rate_guardian.Models.{rate_per_second, RuleRow, Rule, CachedRule, IsoText, isoformat}
use rate_guardian.Redis.{Redis, Value, text, int, float, json, cache_key}
use rate_guardian.Table.{Table}
use rate_guardian.Fnmatch.{fnmatch}

pub record RuleCreate : Type 0 where
  pub name : String
  pub path_pattern : String
  pub limit : ℕ
  pub window_seconds : ℕ
  pub key_type : String

abbrev pub within : ℕ → ℕ → ℕ → Bool
within lo hi n = leb lo n && leb n hi

-- The constraints of the fields; a body that fails one is refused with status 422.
unfoldable pub is_valid : RuleCreate → Bool
is_valid b =
    within 1 100 (count b.name)
    && within 1 255 (count b.path_pattern)
    && within 1 100_000 b.limit
    && within 1 86_400 b.window_seconds
    && (b.key_type == "ip" || b.key_type == "global")

abbrev pub rule_id : Rule → ℕ
rule_id x = x.id

abbrev pub cache_ttl : ℕ
cache_ttl = 60 * rate_per_second

-- The row of `payload` for a rule.
abbrev pub to_payload : Rule → CachedRule
to_payload x = record {
  id = x.id;
  name = x.name;
  path_pattern = x.path_pattern;
  limit = x.limit;
  window_seconds = x.window_seconds;
  key_type = x.key_type;
  active = x.active;
  created_at = isoformat x.created_at;
}

-- The test of the loop in `match`.
abbrev pub applies : String → CachedRule → Bool
applies path rule = rule.active && fnmatch path rule.path_pattern

-- `json.loads(raw) if raw else None`. The outer `none` is the exception for a value that no
-- `json.dumps` of rules wrote.
unfoldable pub load_json : Option Value → Option (Option (List CachedRule))
load_json none = some none
load_json (some (json rows)) = some (some rows)
load_json (some (text t)) = if t == "" then some none else none
load_json (some (int n)) = none
load_json (some (float t)) = none

pub data Reply (A : Type 0) : Type 0 where
  done : A → Reply A
  not_found invalid : Reply A

-- The `Rule` that `create_rule` makes: `active` and `created_at` by their defaults.
abbrev pub new_rule : RuleCreate → ℕ → ℕ → Rule
new_rule body now id = record {
  id = id;
  name = body.name;
  path_pattern = body.path_pattern;
  limit = body.limit;
  window_seconds = body.window_seconds;
  key_type = body.key_type;
  active = true;
  created_at = now;
}

module _ (r : Redis) (t : Table Rule rule_id) where
  -- The shared state: the database and the Redis server.
  pub record World : Type 0 where
    pub db : t.State
    pub redis : r.State

  pub invalidate_cache : Bool → r.State → r.State
  invalidate_cache redis_up s = if redis_up then r.delete s cache_key else s

  -- `db.add`, `commit` and `refresh` of a new rule, which the database gives its id.
  pub create : Bool → (ℕ → Rule) → World → Rule × World
  create redis_up make w =
      let (id, db) = t.insert w.db make in
      (make id, record { db = db; redis = invalidate_cache redis_up w.redis })

  pub set_active : Bool → Rule → Bool → World → Rule × World
  set_active redis_up rule active w = (
    record rule { active = active },
    record {
      db = t.update w.db (λ x. nat_eq x.id rule.id) (λ x. record x { active = active });
      redis = invalidate_cache redis_up w.redis;
    },
  )

  pub delete : Bool → Rule → World → World
  delete redis_up rule w = record {
    db = (t.delete w.db (λ x. nat_eq x.id rule.id)).1;
    redis = invalidate_cache redis_up w.redis;
  }

  pub get_all : World → List Rule
  get_all w = t.descending (λ x. x.created_at) (t.rows w.db)

  -- GET /rules
  pub list_rules : World → List Rule
  unfolding get_all
  list_rules w = get_all w

  pub get_by_id : World → ℕ → Option Rule
  get_by_id w id = first (λ x. nat_eq x.id id) (t.rows w.db)

  -- The rows that `_load_into_cache` reads.
  abbrev pub payload : t.State → List CachedRule
  payload db = map to_payload (t.ascending (λ x. x.created_at) (select (λ x. x.active) (t.rows db)))

  pub load_from_cache : World → Option (Option (List CachedRule))
  load_from_cache w = load_json (r.strings w.redis cache_key).value

  pub load_into_cache : World → List CachedRule × World
  load_into_cache w =
      let rows = payload w.db in
      (rows, record w { redis = r.setex w.redis cache_key cache_ttl (json rows) })

  -- The first rule that applies to a path; the outer `none` is an exception.
  pub match : World → String → Option (Option CachedRule × World)
  match w path = elim (load_from_cache w) [
    | none ↦ none
    | some none ↦ let (rules, w') = load_into_cache w in some (first (applies path) rules, w')
    | some (some rules) ↦ some (first (applies path) rules, w)
  ]

  -- POST /rules at the time `now`.
  pub create_rule : Bool → ℕ → RuleCreate → World → Reply Rule × World
  create_rule redis_up now body w =
      if is_valid body
      then (let (rule, w') = create redis_up (new_rule body now) w in (done rule, w'))
      else (invalid, w)

  -- PATCH /rules/{rule_id}/toggle
  pub toggle_rule : Bool → ℕ → World → Reply Rule × World
  toggle_rule redis_up id w = elim (get_by_id w id) [
    | none ↦ (not_found, w)
    | some rule ↦ let (rule', w') = set_active redis_up rule (not rule.active) w in (done rule', w')
  ]

  -- DELETE /rules/{rule_id}
  pub delete_rule : Bool → ℕ → World → Reply (Unit {0}) × World
  delete_rule redis_up id w = elim (get_by_id w id) [
    | none ↦ (not_found, w)
    | some rule ↦ (done tt, delete redis_up rule w)
  ]
