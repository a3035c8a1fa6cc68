-- ===== src/App/Ledger.antt =====
-- The log of app/main.py's application against its responses.
use rate_guardian.Base.{
  ℕ, ◌+◌, ◌≡◌, ◌≢◌, inl, inr, refl, subst, ap, sym, String, Bool, Option, none, some, List, [], ◌∷◌,
  ◌++◌, length, length-append, arith,
}
use rate_guardian.Models.{Rule, RequestLog}
use rate_guardian.Redis.{Redis}
use rate_guardian.Table.{Table}
use rate_guardian.CircuitBreaker.{Config}
use rate_guardian.CircuitBreaker.Runs.{Fleet}
use rate_guardian.Rules.{rule_id, World}
use rate_guardian.Rules.Cache.{IsReliable}
use rate_guardian.Logs.{Entry, log_id, log_listener}
use rate_guardian.Logs.Sizes.{length-write, length-purge}
use rate_guardian.Pipeline.{
  Client, unusable, Clock, Response, Outcome, proceeds, responds, raises, Gate, Ctx,
}
use rate_guardian.Pipeline.Sound.{Sound}
use rate_guardian.Proxy.{Sent}
use rate_guardian.Gateway.{or_url, handle, context}
use rate_guardian.Gateway.Handle.{Handled, handle-Handled}
use rate_guardian.Gateway.Logged.{Logged, listener-IsQuiet, handle-Logged}
use rate_guardian.App.{
  Call, handles, edits, writes, purges, App, new_events, purge_logs_job, run_task, step, run_app,
}
use rate_guardian.App.Editing.{serve_one-Kept}

-- The client answers nothing that `Response` raises on.
abbrev pub IsUsable : Client → Type 0
IsUsable client = (asked : Sent) (a : Response) (exc : String) → client asked ≢ unusable a exc

-- The peer of a request has an address, `urlparse` does not raise, `Response` takes what the client
-- answers, and Redis takes the invalidations.
abbrev pub IsServed : (String → Option String) → Call → Type 0
IsServed netloc (handles clock client detail upstream_url request start_time) =
    (host place : String) × (request.client ≡ some host)
    × (netloc upstream_url ≡ some place)
    × IsUsable client
IsServed netloc (edits q) = IsReliable (q ∷ [])
IsServed netloc _ = Unit

abbrev pub AllServed : (String → Option String) → List Call → Type 0
AllServed netloc [] = Unit
AllServed netloc (call ∷ calls) = IsServed netloc call × AllServed netloc calls

-- How many requests for the proxy there are.
abbrev pub proxied : Call → ℕ
proxied (handles clock client detail upstream_url request start_time) = 1
proxied _ = 0

abbrev pub all_proxied : List Call → ℕ
all_proxied [] = 0
all_proxied (call ∷ calls) = proxied call + all_proxied calls

module _ (r : Redis) (t : Table Rule rule_id) (l : Table RequestLog log_id) where
  -- The rows of the log and the tasks that will write one.
  abbrev pub entries_of : App r t l → ℕ
  entries_of app = length (l.rows app.logs) + length app.pending

  run_task-entries :
      (up : Bool) (now : ℕ) (world : World r t) (logs : l.State) (pending : List Entry)
      (sent : List Sent)
      → let app : App r t l = record {
        world = world;
        logs = logs;
        pending = pending;
        sent = sent;
      } in
        let (lost, app') = run_task r t l up now app in
        (entries_of app' + lost ≡ entries_of app) × (app'.world ≡ world)
  unfolding run_task
  run_task-entries up now world logs [] sent = (omega arith, refl)
  run_task-entries up now world logs (e ∷ pending) sent =
      (omega (arith, length-write l up now e logs), refl)

  purge-entries :
      (days now : ℕ) (app : App r t l)
      → let (purged, app') = purge_logs_job r t l days now app in
        entries_of app' + purged ≡ entries_of app
  unfolding purge_logs_job
  purge-entries days now app = omega (arith, length-purge l days now app.logs)

  module _ (c : Config) (netloc : String → Option String) (days : ℕ) where
    -- The calls return, every request is answered, the responses and lost entries balance, and the
    -- state is sound.
    pub record Balanced (requests : ℕ) (app : App r t l)
        (result : Option (List Response × ℕ × App r t l)) : Type 0 where
      pub responses : List Response
      pub complete : length responses ≡ requests
      pub lost : ℕ
      pub after : App r t l
      pub answer : result ≡ some (responses, lost, after)
      pub balance : entries_of after + lost ≡ entries_of app + length responses
      pub fleet : Fleet
      pub sound : Sound r t after.world fleet

    handled :
        (app : App r t l) (ctx : Ctx) (clock : Clock) (client : Client) (o : Outcome)
        (g : Gate r t (List Entry))
        → Handled r t (List Entry) (o, g)
        → IsUsable client
        → Logged r t ctx clock client app.pending (o, g)
        → Balanced 1 app (elim o [
          | proceeds ↦ none
          | responds response ↦
              some
                (response ∷ [], 0, record app { world = g.world; pending = g.sink; sent = g.sent })
          | raises ↦ none
        ])
    handled app ctx clock client proceeds g a n k = absurd a
    handled app ctx clock client (responds response) g a n (inr x) = absurd (n x.0 x.1 x.2 x.5)
    handled app ctx clock client (responds response) g (f, sound) n (inl (e, sink, facts)) =
        record {
          responses = response ∷ [];
          complete = refl;
          lost = 0;
          after = record app { world = g.world; pending = g.sink; sent = g.sent };
          answer = refl;
          balance = omega (arith, ap length sink, length-append app.pending (e ∷ []));
          fleet = f;
          sound = sound;
        }
    handled app ctx clock client raises g a n k = absurd a

    task_run :
        (up : Bool) (now : ℕ) (app : App r t l) (f : Fleet)
        → Sound r t app.world f
        → Balanced 0 app (step r t l c netloc days (writes up now) app)
    unfolding step
    task_run up now app f h =
        let (entries, same) = run_task-entries up now app.world app.logs app.pending app.sent in
        record {
          responses = [];
          complete = refl;
          lost = (run_task r t l up now app).0;
          after = (run_task r t l up now app).1;
          answer = refl;
          balance = omega (arith, entries);
          fleet = f;
          sound = subst (λ w. Sound r t w f) (sym same) h;
        }

    step-Balanced :
        (call : Call) (app : App r t l) (f : Fleet)
        → IsServed netloc call
        → Sound r t app.world f
        → Balanced (proxied call) app (step r t l c netloc days call app)
    unfolding step purge_logs_job
    step-Balanced (handles clock client detail url request start_time) app f (host, place, e, l, n)
          h =
        let m = log_listener new_events in
        let g : Gate r t (List Entry) = record {
          world = app.world;
          sink = app.pending;
          sent = app.sent;
        } in
        let x = handle r t (List Entry) c m clock client detail netloc url request start_time g in
        let (ip, known, logged) =
          handle-Logged r t c clock client detail netloc url request start_time g f host place e l
            h in
        handled app (context r t (List Entry) url (or_url place url) request start_time ip) clock
          client x.0 x.1
          (handle-Handled r t (List Entry) c m clock client detail netloc url request start_time g f
            host place e l listener-IsQuiet h)
          n logged
    step-Balanced (edits q) app f e h =
        let k = serve_one-Kept r t app.world f h q e in
        rw (k.answer, step)
          (record {
            responses = [];
            complete = refl;
            lost = 0;
            after = record app { world = k.after };
            answer = refl;
            balance = omega arith;
            fleet = f;
            sound = k.sound;
          })
    step-Balanced (writes up now) app f e h = task_run up now app f h
    step-Balanced (purges now) app f e h = record {
      responses = [];
      complete = refl;
      lost = (purge_logs_job r t l days now app).0;
      after = (purge_logs_job r t l days now app).1;
      answer = refl;
      balance = omega (arith, purge-entries days now app);
      fleet = f;
      sound = h;
    }

    -- In a world where the cache agrees with the table and the breakers' keys hold states,
    -- any sequence of requests for the proxy whose peers have addresses, whose URLs
    -- `urlparse` reads and whose upstreams' answers `Response` takes, of requests of the rule
    -- routes whose invalidations Redis takes, of log tasks, purges and time that passes ends
    -- without an exception and in such a world; every request for the proxy gets a response;
    -- and the rows of the log, the pending tasks and the entries lost to the database or
    -- purged are as many as the rows and tasks before and the responses together.
    pub run_app-Balanced :
        (calls : List Call) (app : App r t l) (f : Fleet)
        → AllServed netloc calls
        → Sound r t app.world f
        → Balanced (all_proxied calls) app (run_app r t l c netloc days calls app)
    unfolding run_app
    run_app-Balanced [] app f e h = record {
      responses = [];
      complete = refl;
      lost = 0;
      after = app;
      answer = refl;
      balance = omega arith;
      fleet = f;
      sound = h;
    }
    run_app-Balanced (call ∷ calls) app f e h =
        let one = step-Balanced call app f e.0 h in
        let rest = run_app-Balanced calls one.after one.fleet e.1 one.sound in
        record {
          responses = one.responses ++ rest.responses;
          complete =
              omega
                (arith, one.complete, rest.complete, length-append one.responses rest.responses);
          lost = one.lost + rest.lost;
          after = rest.after;
          answer = rw (one.answer, run_app) (rw rest.answer refl);
          balance =
              omega (arith, one.balance, rest.balance, length-append one.responses rest.responses);
          fleet = rest.fleet;
          sound = rest.sound;
        }
