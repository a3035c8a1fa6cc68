-- ===== src/Lib.antt =====
-- Rate Guardian: an API gateway that limits rates, breaks circuits and logs what it does.
--
-- A request for the gateway (app/controllers/gateway.py) runs through a pipeline of three steps
-- (app/controllers/pipeline.py). The first looks for a rule that applies to the path
-- (app/models/repositories/rule_repository.py, which caches the rules in Redis) and asks the rate
-- limiter (app/models/services/rate_limiter.py). The second asks the circuit breaker of the
-- upstream (app/models/services/circuit_breaker.py). The third forwards the request and reports
-- success or failure to the breaker. Each outcome is emitted as an event
-- (app/core/event_manager.py), which the log listener turns into a row of the log
-- (app/models/services/log_listener.py, app/models/services/log_service.py,
-- app/models/repositories/log_repository.py). The dashboard (app/controllers/dashboard.py) shows what
-- the log says, as JSON and as the page of app/views/templates/dashboard.py.
--
-- Files, each with the part that it models and, below it, the modules of its proofs:
--  Base            lists, numbers, decidable tests and the lemmas that the parts share
--  Models          the rows and events of app/models and app/core/events.py
--  Redis           the server: a record of operations and laws; Redis/Memory meets them
--  Table           a table of the database, likewise; Table/Memory meets the laws
--  Fnmatch         `fnmatch.fnmatch` of the Python library, on code points
--  RateLimiter     `SlidingWindowRateLimiter.check`
--  CircuitBreaker  `RedisCircuitBreaker`: can_request, record_success, record_failure, get_state
--  Rules           `RuleRepository`, and the routes of app/controllers/rules.py
--  EventManager    `EventManager`: subscribe, emit
--  Logs            `LogListener`, `LogService` and `LogRepository`
--  Pipeline        the steps, and `GatewayPipeline.run` over the ones that `GatewayController` sets up
--  Gateway         the context of a request and `GatewayController.handle`; Gateway/Visits has requests
--                  that follow one another
--  App             the parts that app/main.py composes, and calls of them one after the other
--  Page            the template, and what `render_dashboard` makes of it
--  Double          the division and the rounding of a percentage, in doubles
--  Dashboard       the routes of app/controllers/dashboard.py, and the page at `/` of app/main.py
--  Proxy           what `HttpxProxyService` asks the HTTP client to send for a request
--  Core            the settings of app/core/config.py, `get_redis` and `get_db`
--
-- State is passed explicitly: an operation takes the state of Redis, of a table or of both and
-- returns the new one. An operation that may raise returns an Option, or an Outcome in the
-- pipeline. Times are natural numbers in units of 2^-22 seconds, in which the doubles of
-- `time.time()` and the sums and differences with whole seconds are exact between 2004 and 2038. A
-- call reads the clock at most once, and that reading is an argument. Redis and the database are
-- parameters with their documented behaviour as laws: keys of different prefix or upstream are
-- different, DEL, SET, SETEX, INCR and the commands on sorted sets do what the documentation says,
-- keys with a lifetime vanish when it ends, and SQL returns rows in no order but the one that
-- ORDER BY asks for. The HTTP client is a function that answers what it is asked to send, or raises;
-- whether the constructor `Response` takes the headers of an answer is part of what it says, since
-- the steps have one `try` around both. The state of the pipeline keeps what the client was asked to
-- send.
--
-- The pattern translation of Fnmatch recurs on fuel, the length of the pattern; each step uses one
-- unit and consumes at least one character, so the fuel is enough. A number is written with as much
-- fuel as it is large, and one unit more, which is more than its digits. A quotient of doubles is
-- scaled with the divisor as fuel, which is more than the doublings that it takes. All other loops
-- recur on lists.
--
-- Calls follow one another, with three exceptions: RateLimiter/Race and CircuitBreaker/Race run the
-- calls of the rate limiter and of the breaker command by command, in any order, and Rules/Loading lets
-- requests come between the two halves of a load of the cache. Calls that interleave inside another
-- operation are not modelled. Nor are commands that Redis fails on, but for the DEL that invalidates
-- the cache, which the code catches. Reading the body of a request does not raise.
--
-- Not modelled: the engine and the session class of app/core/database.py, the construction of the
-- FastAPI application and the scheduler of app/main.py, and the demo (demo.py). The texts of the
-- environment are Latin-1. The environment, the constructors of connections and sessions, the httpx
-- client, the average and the grouping that the database computes, the network location that
-- `urlparse` reads of a URL, and the texts of cosines, sines and averages that the floating-point
-- library prints are arguments. `upper` of the page is the one of ASCII, which the reasons that the
-- pipeline emits are written in.
pub mod Base
pub mod Models
pub mod Redis
pub mod Table
pub mod Fnmatch
pub mod Rules
pub mod EventManager
pub mod Logs
pub mod Proxy
pub mod Pipeline
pub mod Gateway
pub mod App
pub mod Double
pub mod Core
pub mod Page
pub mod Dashboard
pub mod CircuitBreaker
pub mod RateLimiter
