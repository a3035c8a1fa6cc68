-- ===== src/Core.antt =====
-- app/core/config.py, redis_client.py and database.py: the settings that the environment gives, the
-- shared client and the sessions.
--
-- `os.getenv` is a function from names to texts, which are Latin-1. What opens a connection and what
-- closes a session are arguments.
pub mod Numbers
pub mod Environment
mod Tests
use rate_guardian.Base.{
  ℕ, ◌+◌, ◌-◌, ◌*◌, String, Bool, true, false, not, ◌&&◌, ◌||◌, Option, none, some, List, [], ◌∷◌,
  leb, nat_eq, ℤ, pos, sub_ℕ, if◌then◌else◌,
}
use rate_guardian.Fnmatch.{codes}

-- `os.getenv(name, default)`
abbrev pub getenv : (String → Option String) → String → String → String
getenv env name default = elim (env name) [ none ↦ default | some value ↦ value ]

abbrev pub is_digit : ℕ → Bool
is_digit c = leb 48 c && leb c 57

-- The white space that `int` skips, in Latin-1.
abbrev pub is_blank : ℕ → Bool
is_blank c = leb 9 c && leb c 13 || nat_eq c 32 || nat_eq c 133 || nat_eq c 160

abbrev pub all_blank : List ℕ → Bool
all_blank [] = true
all_blank (c ∷ cs) = is_blank c && all_blank cs

-- The digits, with single underscores between them, and white space after them. `must` says that a
-- digit has to come next; `value` and `count` are the digits so far. Texts of more than 4300 digits
-- are refused.
unfoldable pub read_digits : Bool → ℕ → ℕ → List ℕ → Option ℕ
read_digits must value count [] = if not must && leb count 4300 then some value else none
read_digits must value count (c ∷ cs) = elim (is_digit c) [
  | true ↦ read_digits false (10 * value + (c - 48)) (count + 1) cs
  | false ↦ elim (nat_eq c 95 && not must) [
    | true ↦ read_digits true value count cs
    | false ↦ if not must && is_blank c && all_blank cs && leb count 4300 then some value else none
  ]
]

unfoldable pub signed : List ℕ → Option ℤ
unfolding read_digits
signed [] = none
signed (c ∷ cs) =
    if nat_eq c 45
    then elim (read_digits true 0 0 cs) [ none ↦ none | some n ↦ some (sub_ℕ 0 n) ]
    else if nat_eq c 43
    then elim (read_digits true 0 0 cs) [ none ↦ none | some n ↦ some (pos n) ]
    else elim (read_digits true 0 0 (c ∷ cs)) [ none ↦ none | some n ↦ some (pos n) ]

-- `int` of a text; none is the value error.
unfoldable pub int : List ℕ → Option ℤ
unfolding signed
int [] = signed []
int (c ∷ cs) = let rest = int cs in if is_blank c then rest else signed (c ∷ cs)

pub record Settings : Type 0 where
  pub redis_url : String
  pub failure_threshold : ℤ
  pub recovery_seconds : ℤ
  pub log_retention_days : ℤ

-- The module's body: the first text that is no number ends it.
unfoldable pub read_settings : (String → Option String) → Option Settings
unfolding int
read_settings env =
    let redis_url = getenv env "REDIS_URL" "redis://localhost:6379" in
    elim (int (codes (getenv env "CIRCUIT_BREAKER_FAILURE_THRESHOLD" "5"))) [
      | none ↦ none
      | some threshold ↦ elim (int (codes (getenv env "CIRCUIT_BREAKER_RECOVERY_SECONDS" "30"))) [
        | none ↦ none
        | some recovery ↦ elim (int (codes (getenv env "LOG_RETENTION_DAYS" "7"))) [
          | none ↦ none
          | some days ↦ some (record {
            redis_url = redis_url;
            failure_threshold = threshold;
            recovery_seconds = recovery;
            log_retention_days = days;
          })
        ]
      ]
    ]

module _ {W C : Type 0} where
  -- `get_redis`, on the global `_client`: the client is made by the first call.
  unfoldable pub get_redis : (W → C × W) → Option C → W → C × Option C × W
  get_redis from_url (some client) w = (client, some client, w)
  get_redis from_url none w = let (client, w') = from_url w in (client, some client, w')

  -- `get_db`: the session is closed after the request, also when it raises.
  unfoldable pub get_db :
      {A : Type 0} → (W → C × W) → (C → W → W) → (C → W → Option A × W) → W → Option A × W
  get_db session close request w =
      let (db, w') = session w in let (answer, w'') = request db w' in (answer, close db w'')
