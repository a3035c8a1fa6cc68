-- ===== src/Core/Tests.antt =====
-- The environment of app/core/config.py on concrete texts.
use rate_guardian.Base.{
  ◌≡◌, refl, String, Option, none, some, [], ◌∷◌, pos, negsuc, ◌==◌, if◌then◌else◌, inr, arith,
}
use rate_guardian.Fnmatch.{codes}
use rate_guardian.Page.Text.{digits, decimal}
use rate_guardian.Core.{read_digits, signed, int, read_settings}
use rate_guardian.Core.Environment.{Gives, settings_given, settings_refused}

test_int : int (codes " 1_000 ") ≡ some (pos 1000)
unfolding int signed read_digits
test_int = refl

test_negative : int (codes "-3") ≡ some (negsuc 2)
unfolding int signed read_digits
test_negative = refl

test_underscores : int (codes "1__0") ≡ none
unfolding int signed read_digits
test_underscores = refl

test_empty : int (codes "") ≡ none
unfolding int signed read_digits
test_empty = refl

abbrev env : String → Option String
env name = if name == "LOG_RETENTION_DAYS" then some " 14" else none

five : Gives env "CIRCUIT_BREAKER_FAILURE_THRESHOLD" "5" 5
unfolding decimal digits
five = record {
  before = [];
  after = [];
  value = refl;
  blank_before = refl;
  blank_after = refl;
  size = omega arith;
}

thirty : Gives env "CIRCUIT_BREAKER_RECOVERY_SECONDS" "30" 30
unfolding decimal digits
thirty = record {
  before = [];
  after = [];
  value = refl;
  blank_before = refl;
  blank_after = refl;
  size = omega arith;
}

fourteen : Gives env "LOG_RETENTION_DAYS" "7" 14
unfolding decimal digits
fourteen = record {
  before = 32 ∷ [];
  after = [];
  value = refl;
  blank_before = refl;
  blank_after = refl;
  size = omega arith;
}

settings_given_example :
    read_settings env
    ≡ some (record {
      redis_url = "redis://localhost:6379";
      failure_threshold = pos 5;
      recovery_seconds = pos 30;
      log_retention_days = pos 14;
    })
settings_given_example = settings_given env 5 30 14 five thirty fourteen

abbrev wrong : String → Option String
wrong name = if name == "LOG_RETENTION_DAYS" then some "7 days" else none

settings_refused_example : read_settings wrong ≡ none
settings_refused_example = settings_refused wrong (inr (inr refl))
