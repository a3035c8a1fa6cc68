-- ===== src/RateLimiter/Surprises.antt =====
-- What callers of app/models/services/rate_limiter.py may not expect: how `Retry-After` is rounded,
-- what two rules with one key do to each other, and how requests that read one time are counted.
use rate_guardian.Base.{
  ℕ, ◌+◌, ◌-◌, ◌%◌, ◌≤◌, ◌<◌, ◌≡◌, refl, sym, ap, subst, ◌∙◌, ◌≢◌, String, true, false, Option,
  none, some, leb, List, [], ◌∷◌, arith, ltb, length, All, length-select-le,
}
use rate_guardian.Models.{rate_per_second}
use rate_guardian.Redis.{Redis, ZsetCell, age_zset}
use rate_guardian.RateLimiter.{seconds, reset_after, check}
use rate_guardian.RateLimiter.Window.{is_inside, inside}
use rate_guardian.RateLimiter.Stands.{inside-none}
use rate_guardian.RateLimiter.Effect.{kept, zsets-check}
use rate_guardian.RateLimiter.Quota.{rejected_reset, allowed-eq}

-- Where a part of a second was cut off, the oldest entry is still there after the announced time.
early :
    (oldest : ℕ) (rest : List ℕ) (w now t : ℕ)
    → now < oldest + seconds w
    → (seconds w + oldest - now) % rate_per_second ≢ 0
    → oldest ≤ t
    → is_inside (now + seconds (reset_after (oldest ∷ rest) w now)) (seconds w) t ≡ true
unfolding reset_after
early oldest rest w now t h k p = ground arith

All-inside_eq :
    (later w : ℕ) (xs : List ℕ) → All (λ t. is_inside later w t ≡ true) xs → inside later w xs ≡ xs
All-inside_eq later w [] h = refl
All-inside_eq later w (x ∷ xs) h = rw h.0 (ap (λ ys. x ∷ ys) (All-inside_eq later w xs h.1))

All-early :
    (oldest : ℕ) (rest xs : List ℕ) (w now : ℕ)
    → now < oldest + seconds w
    → (seconds w + oldest - now) % rate_per_second ≢ 0
    → All (λ t. oldest ≤ t) xs
    → All
        (λ t. is_inside (now + seconds (reset_after (oldest ∷ rest) w now)) (seconds w) t ≡ true)
        xs
All-early oldest rest [] w now h k p = tt
All-early oldest rest (x ∷ xs) w now h k p =
    (early oldest rest w now x h k p.0, All-early oldest rest xs w now h k p.1)

members-age :
    (d : ℕ) (xs : List ℕ) (ttl : Option ℕ)
    → ((left : ℕ) → ttl ≡ some left → d < left)
    → (age_zset d (record { members = xs; ttl = ttl })).members ≡ xs
members-age d xs none lives = refl
members-age d xs (some left) lives =
    let n : leb left d ≡ false = ground (arith, lives left refl) in rw n refl

module _ (r : Redis) where
  open r use {State, zsets, elapse, zsets-elapse}

  -- A rejection leaves the entries of the window, and their lifetime.
  rejected_cell :
      (s : State) (key : String) (limit w now oldest : ℕ) (rest : List ℕ)
      → (check r s key limit w now).0.allowed ≡ false
      → kept r s key w now ≡ oldest ∷ rest
      → zsets (check r s key limit w now).1 key
        ≡ record { members = oldest ∷ rest; ttl = (zsets s key).ttl }
  rejected_cell s key limit w now oldest rest h e =
      rw (zsets-check r s key limit w now, sym (allowed-eq r s key limit w now) ∙ h) (rw e refl)

  -- If a request is rejected while the oldest entry is in the window and first among those
  -- there, and the time until it leaves is not a whole number of seconds, then a request after
  -- exactly the announced reset is rejected too, however far the clock of the server has moved
  -- meanwhile, short of the end of the lifetime that the sorted set had.
  pub retry_too_early :
      (s : State) (key : String) (limit w now oldest : ℕ) (rest : List ℕ) (d : ℕ)
      → (check r s key limit w now).0.allowed ≡ false
      → kept r s key w now ≡ oldest ∷ rest
      → now < oldest + seconds w
      → All (λ t. oldest ≤ t) rest
      → (seconds w + oldest - now) % rate_per_second ≢ 0
      → ((left : ℕ) → (zsets s key).ttl ≡ some left → d < left)
      → let later = now + seconds (check r s key limit w now).0.reset_in in
        (check r (elapse (check r s key limit w now).1 d) key limit w later).0.allowed ≡ false
  retry_too_early s key limit w now oldest rest d h e ins sorted part lives =
      let a = (check r s key limit w now).0 in
      let s' = elapse (check r s key limit w now).1 d in
      let later = now + seconds a.reset_in in
      let reset : a.reset_in ≡ reset_after (oldest ∷ rest) w now =
        rejected_reset r s key limit w now h ∙ ap (λ xs. reset_after xs w now) e in
      let still : inside later (seconds w) (oldest ∷ rest) ≡ oldest ∷ rest =
        subst (λ (n : ℕ). inside (now + seconds n) (seconds w) (oldest ∷ rest) ≡ oldest ∷ rest)
          (sym reset)
          (All-inside_eq _ (seconds w) (oldest ∷ rest)
            (All-early oldest rest (oldest ∷ rest) w now ins part (omega arith, sorted))) in
      let there : (zsets s' key).members ≡ oldest ∷ rest =
        rw (zsets-elapse, rejected_cell s key limit w now oldest rest h e)
          (members-age d (oldest ∷ rest) (zsets s key).ttl lives) in
      let same : kept r s' key w later ≡ kept r s key w now =
        ap (inside later (seconds w)) there ∙ still ∙ sym e in
      allowed-eq r s' key limit w later
      ∙ ap (λ (xs : List ℕ). ltb (length xs) limit) same
      ∙ sym (allowed-eq r s key limit w now)
      ∙ h

  -- A request that finds no entry in its window leaves its own.
  first_entry :
      (s : State) (key : String) (limit w now : ℕ)
      → kept r s key w now ≡ []
      → 0 < limit
      → zsets (check r s key limit w now).1 key
        ≡ record { members = now ∷ []; ttl = some (seconds (w + 1)) }
  first_entry s key limit w now e p = rw (zsets-check r s key limit w now, e) (ground arith)

  -- Where the window of a rule with a positive limit holds no entry of a key, a request under
  -- it is followed by one that any rule with a limit above 1 lets in for the key, whatever its
  -- window and the time.
  pub short_window_resets :
      (s : State) (key : String) (limit w now limit' w' later : ℕ)
      → All (λ t. t + seconds w ≤ now) (zsets s key).members
      → 0 < limit
      → 1 < limit'
      → (check r (check r s key limit w now).1 key limit' w' later).0.allowed ≡ true
  short_window_resets s key limit w now limit' w' later old p q =
      let s' = (check r s key limit w now).1 in
      let one : (zsets s' key).members ≡ now ∷ [] =
        ap (λ (c : ZsetCell). c.members)
          (first_entry s key limit w now (inside-none now (seconds w) _ old) p) in
      let few : length (kept r s' key w' later) ≤ 1 =
        subst (λ (xs : List ℕ). length (inside later (seconds w') xs) ≤ 1) (sym one)
          (length-select-le (is_inside later (seconds w')) (now ∷ [])) in
      allowed-eq r s' key limit' w' later ∙ ground arith
