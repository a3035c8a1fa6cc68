-- ===== src/RateLimiter/Quota.antt =====
-- What callers of `check` may rely on: what a rejection consumes, the numbers that go into the
-- response headers, and when a retry succeeds.
use rate_guardian.Base.{
  ℕ, ◌+◌, ◌≤◌, ◌<◌, ◌≡◌, refl, sym, ap, subst, ◌∙◌, String, true, false, Option, none, some, List,
  [], ◌∷◌, arith, ltb, leb, length, All, Bool-cases, inl, inr, if◌then◌else◌, length-select-le,
}
use rate_guardian.Redis.{Redis, age_zset}
use rate_guardian.RateLimiter.{RateLimitResult, seconds, reset_after, check}
use rate_guardian.RateLimiter.Window.{is_inside, inside}
use rate_guardian.RateLimiter.Stands.{All-inside}
use rate_guardian.RateLimiter.Effect.{kept, members-keep, zsets-check, result-check}

-- What a longer window keeps, a shorter one that ends later keeps of it.
pub inside-narrower :
    (now later w v : ℕ) (xs : List ℕ)
    → now ≤ later
    → v ≤ w
    → inside later v (inside now w xs) ≡ inside later v xs
inside-narrower now later w v [] h k = refl
inside-narrower now later w v (x ∷ xs) h k = ground (arith, inside-narrower now later w v xs h k)

-- Letting time pass can only empty the set.
inside-age :
    (later w d : ℕ) (xs : List ℕ) (ttl : Option ℕ)
    → length (inside later w (age_zset d (record { members = xs; ttl = ttl })).members)
      ≤ length (inside later w xs)
inside-age later w d xs none = omega arith
inside-age later w d xs (some left) = elim (Bool-cases (leb left d)) [
  | inl y ↦ rw y (omega arith)
  | inr n ↦ rw n (omega arith)
]

reset-le : (xs : List ℕ) (w now : ℕ) → All (λ t. t ≤ now) xs → reset_after xs w now ≤ w
unfolding reset_after
reset-le [] w now h = omega arith
reset-le (x ∷ xs) w now h = ground arith

-- The oldest entry has left the window a second after the time announced at the latest.
gone :
    (oldest : ℕ) (rest : List ℕ) (w now : ℕ)
    → is_inside (now + seconds (reset_after (oldest ∷ rest) w now + 1)) (seconds w) oldest ≡ false
unfolding reset_after
gone oldest rest w now = ground arith

lt→ltb : (a b : ℕ) → a < b → ltb a b ≡ true
lt→ltb a b h = ground arith

module _ (r : Redis) where
  open r use {State, zsets, elapse, zsets-elapse}

  pub allowed-eq :
      (s : State) (key : String) (limit w now : ℕ)
      → (check r s key limit w now).0.allowed ≡ ltb (length (kept r s key w now)) limit
  allowed-eq s key limit w now =
      ap (λ (a : RateLimitResult). a.allowed) (result-check r s key limit w now) ∙ ground arith

  pub members-rejected :
      (s : State) (key : String) (limit w now : ℕ)
      → (check r s key limit w now).0.allowed ≡ false
      → (zsets (check r s key limit w now).1 key).members ≡ kept r s key w now
  members-rejected s key limit w now h =
      rw (zsets-check r s key limit w now, sym (allowed-eq s key limit w now) ∙ h)
        (members-keep _ _)

  -- After a rejected request, a later request for the key with a window that is no longer gets
  -- the result that it would have got without the rejected one.
  pub rejected_consumes_nothing :
      (s : State) (key : String) (limit w now limit' w' later : ℕ)
      → (check r s key limit w now).0.allowed ≡ false
      → now ≤ later
      → w' ≤ w
      → (check r (check r s key limit w now).1 key limit' w' later).0
        ≡ (check r s key limit' w' later).0
  rejected_consumes_nothing s key limit w now limit' w' later h n k =
      let same : kept r (check r s key limit w now).1 key w' later ≡ kept r s key w' later =
        rw (members-rejected s key limit w now h)
          (inside-narrower now later (seconds w) (seconds w') _ n (omega arith)) in
      rw (result-check r (check r s key limit w now).1 key limit' w' later, same)
        (sym (result-check r s key limit' w' later))

  pub rejected_reset :
      (s : State) (key : String) (limit w now : ℕ)
      → (check r s key limit w now).0.allowed ≡ false
      → (check r s key limit w now).0.reset_in ≡ reset_after (kept r s key w now) w now
  rejected_reset s key limit w now h =
      rw (result-check r s key limit w now, sym (allowed-eq s key limit w now) ∙ h) refl

  -- If no entry is later than now, the result has the rule's limit, a reset time of at most the
  -- window, and a remaining quota that adds up to the limit with the entries in the window and
  -- the request itself if it is let in, and is 0 otherwise.
  pub result_bounds :
      (s : State) (key : String) (limit w now : ℕ)
      → All (λ t. t ≤ now) (zsets s key).members
      → let a = (check r s key limit w now).0 in
        (a.limit ≡ limit)
        × (a.reset_in ≤ w)
        × (a.remaining + (if a.allowed then length (kept r s key w now) + 1 else limit) ≡ limit)
  result_bounds s key limit w now h =
      let bound = reset-le (kept r s key w now) w now (All-inside _ now (seconds w) _ h) in
      rw result-check (elim (Bool-cases (ltb (length (kept r s key w now)) limit)) [
        | inl y ↦ rw y (refl, omega arith, ground arith)
        | inr n ↦ rw n (refl, bound, omega arith)
      ])

  pub count-rejected :
      (s : State) (key : String) (limit w now d later w' : ℕ)
      → (check r s key limit w now).0.allowed ≡ false
      → length (kept r (elapse (check r s key limit w now).1 d) key w' later)
        ≤ length (inside later (seconds w') (kept r s key w now))
  count-rejected s key limit w now d later w' h =
      let c = zsets (check r s key limit w now).1 key in
      rw zsets-elapse (
        subst
          (λ (xs : List ℕ).
            length (inside later (seconds w') (age_zset d c).members)
            ≤ length (inside later (seconds w') xs))
          (members-rejected s key limit w now h) (inside-age later (seconds w') d c.members c.ttl))

  few_inside :
      (s : State) (key : String) (limit w now d later oldest : ℕ) (rest : List ℕ)
      → (check r s key limit w now).0.allowed ≡ false
      → kept r s key w now ≡ oldest ∷ rest
      → length rest < limit
      → is_inside later (seconds w) oldest ≡ false
      → length (kept r (elapse (check r s key limit w now).1 d) key w later) < limit
  few_inside s key limit w now d later oldest rest h e few out =
      let bound : length (inside later (seconds w) (oldest ∷ rest)) ≤ length rest =
        rw out (length-select-le (is_inside later (seconds w)) rest) in
      let count = count-rejected s key limit w now d later w h in
      omega (
        arith,
        bound,
        subst
            (λ (xs : List ℕ).
              length (kept r (elapse (check r s key limit w now).1 d) key w later)
              ≤ length (inside later (seconds w) xs))
            e count,
      )

  -- If a request is rejected, and fewer entries than the limit come after the oldest one in the
  -- window, then a request one second after the announced reset is let in, however far the
  -- clock of the server has moved meanwhile.
  pub retry_succeeds :
      (s : State) (key : String) (limit w now d : ℕ) (oldest : ℕ) (rest : List ℕ)
      → (check r s key limit w now).0.allowed ≡ false
      → kept r s key w now ≡ oldest ∷ rest
      → length rest < limit
      → let later = now + seconds ((check r s key limit w now).0.reset_in + 1) in
        (check r (elapse (check r s key limit w now).1 d) key limit w later).0.allowed ≡ true
  retry_succeeds s key limit w now d oldest rest h e few =
      let later = now + seconds ((check r s key limit w now).0.reset_in + 1) in
      let reset : (check r s key limit w now).0.reset_in ≡ reset_after (oldest ∷ rest) w now =
        rejected_reset s key limit w now h ∙ ap (λ xs. reset_after xs w now) e in
      allowed-eq (elapse (check r s key limit w now).1 d) key limit w later
      ∙ lt→ltb _ _ (
          few_inside s key limit w now d later oldest rest h e few
            (rw reset (gone oldest rest w now)))
