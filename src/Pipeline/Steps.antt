-- ===== src/Pipeline/Steps.antt =====
-- The runner of app/controllers/pipeline.py: what holds of a response that a step gives holds of the
-- run, if the steps before it keep what it speaks of.
use rate_guardian.Base.{◌≡◌, sym, subst, List, [], ◌∷◌}
use rate_guardian.Models.{Rule}
use rate_guardian.Redis.{Redis}
use rate_guardian.Table.{Table}
use rate_guardian.Rules.{rule_id}
use rate_guardian.Pipeline.{Response, Ctx, Outcome, proceeds, responds, raises, Gate, Step, run}

module _ (r : Redis) (t : Table Rule rule_id) (S : Type 0)
    (Responds : Ctx → Gate r t S → Response → Gate r t S → Type 0) where
  -- The end of a run.
  abbrev pub Ends : Ctx → Gate r t S → Outcome × Ctx × Gate r t S → Type 0
  Ends ctx g (proceeds, ctx', g') = ⊥
  Ends ctx g (responds response, ctx', g') = Responds ctx g response g'
  Ends ctx g (raises, ctx', g') = Unit

  -- What has ended goes on to nothing.
  pub Ends-last :
      (ctx : Ctx) (g : Gate r t S) (o : Outcome) (ctx' : Ctx) (g' : Gate r t S)
      → Ends ctx g (o, ctx', g')
      → Ends ctx g (elim o [
        | proceeds ↦ run r t S [] ctx' g'
        | responds response ↦ (responds response, ctx', g')
        | raises ↦ (raises, ctx', g')
      ])
  Ends-last ctx g proceeds ctx' g' h = absurd h
  Ends-last ctx g (responds a) ctx' g' h = h
  Ends-last ctx g raises ctx' g' h = h

  -- How a run goes on after a step.
  abbrev pub goes_on : List (Step r t S) → Outcome × Ctx × Gate r t S → Outcome × Ctx × Gate r t S
  goes_on steps (outcome, ctx, g) = elim outcome [
    | proceeds ↦ run r t S steps ctx g
    | responds response ↦ (responds response, ctx, g)
    | raises ↦ (raises, ctx, g)
  ]

  pub Ends-first :
      (step : Step r t S) (steps : List (Step r t S)) (ctx : Ctx) (g : Gate r t S)
      (x : Outcome × Ctx × Gate r t S)
      → step ctx g ≡ x
      → Ends ctx g (goes_on steps x)
      → Ends ctx g (run r t S (step ∷ steps) ctx g)
  unfolding run
  Ends-first step steps ctx g x e h = subst (λ y. Ends ctx g (goes_on steps y)) (sym e) h

  module _ (Keeps : Gate r t S → Gate r t S → Type 0) where
    -- The end of a step, which may also go on with the context that it was given.
    abbrev pub StepEnds : Ctx → Gate r t S → Outcome × Ctx × Gate r t S → Type 0
    StepEnds ctx g (proceeds, ctx', g') = Keeps g g' × (ctx' ≡ ctx)
    StepEnds ctx g (responds response, ctx', g') = Responds ctx g response g'
    StepEnds ctx g (raises, ctx', g') = Unit

    module _
        (carry : (ctx : Ctx) (g g' end : Gate r t S) (a : Response)
          → Keeps g g'
          → Responds ctx g' a end
          → Responds ctx g a end) where
      Ends-Keeps :
          (ctx : Ctx) (g g' : Gate r t S) (o : Outcome) (ctx' : Ctx) (end : Gate r t S)
          → Keeps g g'
          → Ends ctx g' (o, ctx', end)
          → Ends ctx g (o, ctx', end)
      Ends-Keeps ctx g g' proceeds ctx' end e h = h
      Ends-Keeps ctx g g' (responds a) ctx' end e h = carry ctx g g' end a e h
      Ends-Keeps ctx g g' raises ctx' end e h = h

      after_step :
          (steps : List (Step r t S)) (ctx : Ctx) (g : Gate r t S) (o : Outcome) (ctx' : Ctx)
          (g' : Gate r t S)
          → StepEnds ctx g (o, ctx', g')
          → ((end : Gate r t S) → Ends ctx end (run r t S steps ctx end))
          → Ends ctx g (elim o [
            | proceeds ↦ run r t S steps ctx' g'
            | responds response ↦ (responds response, ctx', g')
            | raises ↦ (raises, ctx', g')
          ])
      after_step steps ctx g proceeds ctx' g' (same, e) k =
          let x = run r t S steps ctx g' in rw e (Ends-Keeps ctx g g' x.0 x.1 x.2 same (k g'))
      after_step steps ctx g (responds a) ctx' g' h k = h
      after_step steps ctx g raises ctx' g' h k = tt

      pub run-Ends :
          (step : Step r t S) (steps : List (Step r t S)) (ctx : Ctx) (g : Gate r t S)
          → StepEnds ctx g (step ctx g)
          → ((end : Gate r t S) → Ends ctx end (run r t S steps ctx end))
          → Ends ctx g (run r t S (step ∷ steps) ctx g)
      unfolding run
      run-Ends step steps ctx g h k = let x = step ctx g in after_step steps ctx g x.0 x.1 x.2 h k

module _ (r : Redis) (t : Table Rule rule_id) (S : Type 0)
    (Before After : Ctx → Gate r t S → Response → Gate r t S → Type 0) where
  -- From what holds of a run to what holds of it seen from another state.
  pub Ends-map :
      (ctx : Ctx) (g g' : Gate r t S)
      → ((a : Response) (end : Gate r t S) → Before ctx g' a end → After ctx g a end)
      → (o : Outcome) (ctx' : Ctx) (end : Gate r t S) → Ends r t S Before ctx g' (o, ctx', end)
      → Ends r t S After ctx g (o, ctx', end)
  Ends-map ctx g g' f proceeds ctx' end h = h
  Ends-map ctx g g' f (responds a) ctx' end h = f a end h
  Ends-map ctx g g' f raises ctx' end h = h
