-- ===== src/App.antt =====
-- app/main.py: the services that `lifespan` makes share one Redis and one event manager, to which a
-- `LogListener` is subscribed; the routers work on the same database, and a job purges the logs.
--
-- The calls of the parts are one after the other; `none` is an exception that leaves one of them.
pub mod Editing
pub mod Ledger
mod Tests
use rate_guardian.Base.{
  ℕ, ◌+◌, String, Bool, true, false, Option, none, some, List, [], ◌∷◌, ◌++◌, if◌then◌else◌,
}
use rate_guardian.Models.{Rule, RequestLog}
use rate_guardian.Redis.{Redis}
use rate_guardian.Table.{Table}
use rate_guardian.EventManager.{EventManager}
use rate_guardian.CircuitBreaker.{Config}
use rate_guardian.Rules.{rule_id, World}
use rate_guardian.Rules.Cache.{serve_one}
use rate_guardian.Rules.Cache
use rate_guardian.Logs.{Entry, log_id, log_listener, write, purge_old}
use rate_guardian.Pipeline.{Clock, Client, Response, Outcome, proceeds, responds, raises, Gate}
use rate_guardian.Gateway.{handle}
use rate_guardian.Proxy
use rate_guardian.Proxy.{Sent}

-- `EventManager()`
abbrev pub new_events : EventManager (List Entry)
new_events = record { handlers = λ kind. [] }

-- What happens to the application: a request for the proxy, a request of the rule routes or time that
-- passes, the event loop's turn for the first task, and the purge.
pub data Call : Type 0 where
  handles : Clock → Client → String → String → Proxy.Request → ℕ → Call
  edits : Cache.Request → Call
  writes : Bool → ℕ → Call
  purges : ℕ → Call

module _ (r : Redis) (t : Table Rule rule_id) (l : Table RequestLog log_id) where
  pub record App : Type 0 where
    pub world : World r t
    pub logs : l.State
    pub pending : List Entry
    pub sent : List Sent

  -- `_purge_logs_job`
  pub purge_logs_job : ℕ → ℕ → App → ℕ × App
  purge_logs_job retention_days now app =
      let (purged, logs) = purge_old l retention_days now app.logs in
      (purged, record app { logs = logs })

  -- The first task, and the number of entries that are lost with it.
  pub run_task : Bool → ℕ → App → ℕ × App
  run_task db_up now app = elim app.pending [
    | [] ↦ (0, app)
    | e ∷ pending ↦ (
      if db_up then 0 else 1,
      record app { logs = write l db_up now e app.logs; pending = pending },
    )
  ]

  module _ (c : Config) (netloc : String → Option String) (retention_days : ℕ) where
    -- The responses of the proxy, the entries lost, and the state after the call.
    pub step : Call → App → Option (List Response × ℕ × App)
    step (handles clock client detail upstream_url request start_time) app =
        let (outcome, g) =
          handle r t (List Entry) c (log_listener new_events) clock client detail netloc
            upstream_url request start_time
            (record { world = app.world; sink = app.pending; sent = app.sent }) in
        elim outcome [
          | proceeds ↦ none
          | responds response ↦
              some
                (response ∷ [], 0, record app { world = g.world; pending = g.sink; sent = g.sent })
          | raises ↦ none
        ]
    step (edits q) app = elim (serve_one r t q app.world) [
      | none ↦ none
      | some world ↦ some ([], 0, record app { world = world })
    ]
    step (writes db_up now) app = let (lost, app') = run_task db_up now app in some ([], lost, app')
    step (purges now) app =
        let (purged, app') = purge_logs_job retention_days now app in some ([], purged, app')

    pub run_app : List Call → App → Option (List Response × ℕ × App)
    run_app [] app = some ([], 0, app)
    run_app (call ∷ calls) app = elim (step call app) [
      | none ↦ none
      | some (responses, lost, app') ↦ elim (run_app calls app') [
        | none ↦ none
        | some (responses', lost', app'') ↦ some (responses ++ responses', lost + lost', app'')
      ]
    ]
