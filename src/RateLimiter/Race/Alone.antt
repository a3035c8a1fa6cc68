-- ===== src/RateLimiter/Race/Alone.antt =====
-- A worker that no other comes in between of does what `check` does.
use rate_guardian.Base.{
  ℕ, ◌≡◌, refl, String, List, [], ◌∷◌, ltb, sub_ℕ, length, Bool-cases, inl, inr,
}
use rate_guardian.Redis.{Redis}
use rate_guardian.RateLimiter.{seconds, check}
use rate_guardian.RateLimiter.Race.{
  Worker, Action, ready, answered, turn, advance, take_turn, perform, perform_all,
}

-- Five turns, of which the last may find nothing to do.
abbrev pub alone : ℕ → List Action
alone now = turn 0 now ∷ turn 0 now ∷ turn 0 now ∷ turn 0 now ∷ turn 0 now ∷ []

module _ (r : Redis) (key : String) (limit window_seconds : ℕ) where
  -- Five turns of a worker that no other comes in between of, all with one reading of the
  -- clock, answer and leave what `check` does, whatever the other workers are at.
  pub perform_all-check :
      (now : ℕ) (others : List Worker) (s : r.State)
      → let (result, s') = check r s key limit window_seconds now in
        perform_all r key limit window_seconds (alone now) (ready ∷ others, s)
        ≡ (answered result ∷ others, s')
  unfolding check perform_all perform take_turn advance
  perform_all-check now others s =
      let trimmed = r.zremrangebyscore s key (sub_ℕ now (seconds window_seconds)) in
      elim (Bool-cases (ltb (length (r.zsets trimmed key).members) limit)) [
        | inl y ↦ rw y refl
        | inr y ↦ rw y refl
      ]
