-- ===== src/Pipeline/Received.antt =====
-- What follows the call of the HTTP client in app/controllers/pipeline.py, where no handler raises.
use rate_guardian.Base.{◌≡◌, refl, String, false, some, []}
use rate_guardian.Models.{Rule}
use rate_guardian.Redis.{Redis}
use rate_guardian.Table.{Table}
use rate_guardian.EventManager.{EventManager, Event, emit}
use rate_guardian.CircuitBreaker.{Config, record_success}
use rate_guardian.Rules.{rule_id}
use rate_guardian.Pipeline.{
  Ctx, Clock, answered, unusable, Response, Outcome, proceeds, responds, raises, Gate, on_error,
  receive, run, relayed, forwarded_event,
}

-- No handler raises.
abbrev pub IsQuiet : {S : Type 0} → EventManager S → Type 0
IsQuiet {S} m = (e : Event) (s : S) → (emit m e s).1 ≡ false

module _ (r : Redis) (t : Table Rule rule_id) (S : Type 0) where
  -- The end of a run whose last step had a result.
  abbrev pub ending : Outcome × Ctx × Gate r t S → Outcome × Ctx × Gate r t S
  ending (outcome, ctx, g) = elim outcome [
    | proceeds ↦ run r t S [] ctx g
    | responds response ↦ (responds response, ctx, g)
    | raises ↦ (raises, ctx, g)
  ]

  pub receive-quiet :
      (c : Config) (m : EventManager S) (clock : Clock) (a : Response) (detail : String) (ctx : Ctx)
      (g : Gate r t S)
      → IsQuiet m
      → receive r t S c m clock (answered a) detail ctx g ≡ (
        proceeds,
        record ctx { response = some (relayed a) },
        record g {
          world = record g.world { redis = record_success r g.world.redis ctx.upstream_host };
          sink = (emit m (forwarded_event ctx clock a.status_code) g.sink).0;
        },
      )
  unfolding receive
  receive-quiet c m clock a detail ctx g q =
      rw (q (forwarded_event ctx clock a.status_code) g.sink, receive) refl

  -- The state after the event of a success.
  abbrev pub announced : EventManager S → Clock → Response → Ctx → Gate r t S → Gate r t S
  announced m clock a ctx g = record g {
    world = record g.world { redis = record_success r g.world.redis ctx.upstream_host };
    sink = (emit m (forwarded_event ctx clock a.status_code) g.sink).0;
  }

  pub receive-unusable :
      (c : Config) (m : EventManager S) (clock : Clock) (a : Response) (exc detail : String)
      (ctx : Ctx) (g : Gate r t S)
      → IsQuiet m
      → receive r t S c m clock (unusable a exc) detail ctx g
        ≡ on_error r t S c m clock exc ctx (announced m clock a ctx g)
  unfolding receive
  receive-unusable c m clock a exc detail ctx g q =
      rw (q (forwarded_event ctx clock a.status_code) g.sink, receive) refl
