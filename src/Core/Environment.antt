-- ===== src/Core/Environment.antt =====
-- What the module app/core/config.py makes of the environment, and get_redis of redis_client.py.
use rate_guardian.Base.{
  ℕ, ◌≤◌, ◌≡◌, ◌⊎◌, refl, ap, ◌∙◌, String, true, Option, none, some, List, ◌++◌, length, inl, inr,
  Option-cases, pos,
}
use rate_guardian.Fnmatch.{codes}
use rate_guardian.Page.Text.{decimal}
use rate_guardian.Core.{getenv, all_blank, int, read_settings, get_redis}
use rate_guardian.Core.Numbers.{int-decimal, any_foreign, int-foreign}

-- A variable, or its default, has the decimal digits of a number, with white space around them.
pub record Gives (env : String → Option String) (name default : String) (n : ℕ) : Type 0 where
  pub before : List ℕ
  pub after : List ℕ
  pub value : codes (getenv env name default) ≡ before ++ (decimal n ++ after)
  pub blank_before : all_blank before ≡ true
  pub blank_after : all_blank after ≡ true
  pub size : length (decimal n) ≤ 4300

Gives-int :
    (env : String → Option String) (name default : String) (n : ℕ)
    → Gives env name default n
    → int (codes (getenv env name default)) ≡ some (pos n)
Gives-int env name default n h =
    ap int h.value ∙ int-decimal h.before h.after n h.blank_before h.blank_after h.size

-- Where each of the three numbers of the settings is given by its variable, or its default, as
-- the decimal digits of a number, 4300 at most, with white space around them, the module reads
-- the settings with these numbers, and with the URL of Redis that is given or the default.
pub settings_given :
    (env : String → Option String) (threshold recovery days : ℕ)
    → Gives env "CIRCUIT_BREAKER_FAILURE_THRESHOLD" "5" threshold
    → Gives env "CIRCUIT_BREAKER_RECOVERY_SECONDS" "30" recovery
    → Gives env "LOG_RETENTION_DAYS" "7" days
    → read_settings env
      ≡ some (record {
        redis_url = getenv env "REDIS_URL" "redis://localhost:6379";
        failure_threshold = pos threshold;
        recovery_seconds = pos recovery;
        log_retention_days = pos days;
      })
unfolding read_settings
settings_given env threshold recovery days a b c =
    rw
      (
        Gives-int env _ _ threshold a,
        Gives-int env _ _ recovery b,
        Gives-int env _ _ days c,
        read_settings,
      )
      refl

-- A variable whose text has a character that no number has.
abbrev pub IsForeign : (String → Option String) → String → String → Type 0
IsForeign env name default = any_foreign (codes (getenv env name default)) ≡ true

-- If the text of one of the three variables of the settings that are numbers has a character that
-- is no digit, no white space, no sign and no underscore, the module raises.
pub settings_refused :
    (env : String → Option String)
    → IsForeign env "CIRCUIT_BREAKER_FAILURE_THRESHOLD" "5"
      ⊎ (IsForeign env "CIRCUIT_BREAKER_RECOVERY_SECONDS" "30"
          ⊎ IsForeign env "LOG_RETENTION_DAYS" "7")
    → read_settings env ≡ none
unfolding read_settings
settings_refused env (inl h) = rw (int-foreign _ h, read_settings) refl
settings_refused env (inr (inl h)) =
    elim (Option-cases (int (codes (getenv env "CIRCUIT_BREAKER_FAILURE_THRESHOLD" "5")))) [
      | inl e ↦ rw (e, read_settings) refl
      | inr (n, e) ↦ rw (e, int-foreign _ h, read_settings) refl
    ]
settings_refused env (inr (inr h)) =
    elim (Option-cases (int (codes (getenv env "CIRCUIT_BREAKER_FAILURE_THRESHOLD" "5")))) [
      | inl e ↦ rw (e, read_settings) refl
      | inr (n, e) ↦
          elim (Option-cases (int (codes (getenv env "CIRCUIT_BREAKER_RECOVERY_SECONDS" "30")))) [
            | inl e' ↦ rw (e, e', read_settings) refl
            | inr (n', e') ↦ rw (e, e', int-foreign _ h, read_settings) refl
          ]
    ]

-- The client of the first call is the client of every later one.
pub get_redis_shared :
    {W C : Type 0} (from_url : W → C × W) (client : Option C) (w later : W)
    → let (c, global, w') = get_redis from_url client w in
      get_redis from_url global later ≡ (c, global, later)
unfolding get_redis
get_redis_shared from_url none w later = refl
get_redis_shared from_url (some c) w later = refl
