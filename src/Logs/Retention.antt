-- ===== src/Logs/Retention.antt =====
-- How long a row of the log stays (`LogService.purge_old` of app/models/services/log_service.py, which
-- app/main.py schedules once a day).
use mathlib.Core.List.{Mem, mem-cons}
use mathlib.Core.List.Perm
use mathlib.Core.Logic.Or
use native.Mathlib.Bridge.{le_prop}
use rate_guardian.Base.{
  ℕ, ◌+◌, ◌*◌, ◌≤◌, ap, Bool, true, false, List, [], ◌∷◌, arith, leb, leb→le, select, All, All-mem,
  Bool-cases, inl, inr,
}
use rate_guardian.Models.{RequestLog}
use rate_guardian.Table.{Table}
use rate_guardian.Logs.{Entry, log_id, new_log, day, create, write, purge_old}
use rate_guardian.Logs.Facts.{purge_old_lem}

-- What happens to the log after some time: a task writes an entry, or the job purges.
pub data Event : Type 0 where
  writes : ℕ → Bool → Entry → Event
  purges : ℕ → Event

-- Never more than a day without a purge; the number is the time since the last one.
abbrev pub IsDaily : ℕ → List Event → Type 0
IsDaily since [] = Unit
IsDaily since (writes gap db_up e ∷ es) = (since + gap ≤ day) × IsDaily (since + gap) es
IsDaily since (purges gap ∷ es) = (since + gap ≤ day) × IsDaily 0 es

module _ (t : Table RequestLog log_id) (retention_days : ℕ) where
  unfoldable pub keep : ℕ → List Event → t.State → ℕ × t.State
  keep now [] db = (now, db)
  keep now (writes gap db_up e ∷ es) db = keep (now + gap) es (write t db_up (now + gap) e db)
  keep now (purges gap ∷ es) db = keep (now + gap) es (purge_old t retention_days (now + gap) db).1

  -- No row is older than the retention and a number.
  abbrev pub NoOlder : ℕ → ℕ → t.State → Type 0
  NoOlder now since db =
      (x : RequestLog) → Mem x (t.rows db) → now ≤ x.created_at + retention_days * day + since

  write-NoOlder :
      (now since gap : ℕ) (db_up : Bool) (e : Entry) (db : t.State)
      → NoOlder now since db
      → NoOlder (now + gap) (since + gap) (write t db_up (now + gap) e db)
  unfolding write create
  write-NoOlder now since gap false e db h x m = let k = h x m in omega arith
  write-NoOlder now since gap true e db h x m =
      Or.elim le_prop (mem-cons.0 ((Perm.mem_iff (t.rows-insert db (new_log e (now + gap)))).0 m))
        (λ same. let k = ap (λ (y : RequestLog). y.created_at) same in omega (arith, k))
        (λ n. let k = h x n in omega arith)

  All-young :
      (now : ℕ) (xs : List RequestLog)
      → All
          (λ x. now ≤ x.created_at + retention_days * day + 0)
          (select (λ x. leb now (x.created_at + retention_days * day)) xs)
  All-young now [] = tt
  All-young now (x ∷ xs) =
      let rest = All-young now xs in
      elim (Bool-cases (leb now (x.created_at + retention_days * day))) [
        | inl y ↦
            let young = leb→le now (x.created_at + retention_days * day) y in
            rw y (omega arith, rest)
        | inr n ↦ rw n rest
      ]

  purge-NoOlder : (now : ℕ) (db : t.State) → NoOlder now 0 (purge_old t retention_days now db).1
  purge-NoOlder now db x m =
      let (kept, count) = purge_old_lem t retention_days now db in
      All-mem (λ x. now ≤ x.created_at + retention_days * day + 0) (λ x. le_prop) _ x
        (All-young now (t.rows db)) ((Perm.mem_iff kept).0 m)

  -- If no row of the log is older than the retention and the time since the last purge, which
  -- is a day at most, and whatever log tasks and purges follow, in the order of time, never
  -- more than a day passes without a purge, then at the end no row is older than the retention
  -- and a day.
  pub keep-NoOlder :
      (now since : ℕ) (es : List Event) (db : t.State)
      → since ≤ day
      → IsDaily since es
      → NoOlder now since db
      → let (end, db') = keep now es db in NoOlder end day db'
  unfolding keep
  keep-NoOlder now since [] db s d h = λ x m. let k = h x m in omega arith
  keep-NoOlder now since (writes gap db_up e ∷ es) db s d h =
      keep-NoOlder (now + gap) (since + gap) es _ d.0 d.1 (write-NoOlder now since gap db_up e db h)
  keep-NoOlder now since (purges gap ∷ es) db s d h =
      keep-NoOlder (now + gap) 0 es _ (omega arith) d.1 (purge-NoOlder (now + gap) db)
