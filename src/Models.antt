-- ===== src/Models.antt =====
-- app/models/rule.py, app/models/request_log.py and app/core/events.py: the data that the
-- components pass to one another.
--
-- A float that stands for seconds or milliseconds is a count of 2^-22 units (`rate_per_second`):
-- between 2004 and 2038 an epoch time in a double is such a multiple, and adding or subtracting a
-- whole number of seconds there is exact.
use rate_guardian.Base.{ℕ, ◌^◌, String, Bool, Option}

-- Units of time in a second.
abbrev pub rate_per_second : ℕ
rate_per_second = 2 ^ 22

-- A row of the table `rules`. `D` is the type of `created_at`: a time in the table, a text in the
-- cached payload.
pub record RuleRow (D : Type 0) : Type 0 where
  pub id : ℕ
  pub name : String
  pub path_pattern : String
  pub limit : ℕ
  pub window_seconds : ℕ
  pub key_type : String
  pub active : Bool
  pub created_at : D

abbrev pub Rule : Type 0
Rule = RuleRow ℕ

-- The text that `isoformat` prints of a time.
pub data IsoText : Type 0 where
  isoformat : ℕ → IsoText

-- An entry of the cached payload, and the transient `Rule` that `match` builds from it.
abbrev pub CachedRule : Type 0
CachedRule = RuleRow IsoText

-- A row of the table `request_logs`.
pub record RequestLog : Type 0 where
  pub id : ℕ
  pub client_ip : String
  pub method : String
  pub path : String
  pub upstream : String
  pub status_code : ℕ
  pub latency_ms : ℕ
  pub blocked : Bool
  pub blocked_by : Option String
  pub created_at : ℕ

pub record RequestBlocked : Type 0 where
  pub client_ip : String
  pub method : String
  pub path : String
  pub upstream : String
  pub status_code : ℕ
  pub latency_ms : ℕ
  pub reason : String

pub record RequestForwarded : Type 0 where
  pub client_ip : String
  pub method : String
  pub path : String
  pub upstream : String
  pub status_code : ℕ
  pub latency_ms : ℕ
