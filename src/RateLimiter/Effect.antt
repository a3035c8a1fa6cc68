-- ===== src/RateLimiter/Effect.antt =====
-- What one call of `check` answers and leaves, in the words of the sliding window.
use mathlib.Core.Path.{fun_ext}
use rate_guardian.Base.{
  ℕ, ◌+◌, ◌-◌, ◌<◌, ◌≡◌, refl, ap, ◌∙◌, String, true, false, not, Option, some, List, [], ◌∷◌, ◌++◌,
  arith, ltb, leb_ℤ, sub_ℕ, length, select, All, Bool-cases, inl, inr, if◌then◌else◌, eq_refl, ◌==◌,
}
use rate_guardian.Redis.{Redis, StringKey, ZsetCell, put_member, keep_members, set_ttl}
use rate_guardian.RateLimiter.{seconds, reset_after, check}
use rate_guardian.RateLimiter.Window.{is_inside, inside}

not_expired : (now w x : ℕ) → not (leb_ℤ x (sub_ℕ now w)) ≡ is_inside now w x
not_expired now w x = ground arith

pub members-keep : (xs : List ℕ) (ttl : Option ℕ) → (keep_members xs ttl).members ≡ xs
members-keep [] ttl = refl
members-keep (x ∷ xs) ttl = refl

pub members-set_ttl : (t : ℕ) (xs : List ℕ) → (set_ttl t xs).members ≡ xs
members-set_ttl t [] = refl
members-set_ttl t (x ∷ xs) = refl

pub put_member-last : (t : ℕ) (xs : List ℕ) → All (λ x. x < t) xs → put_member t xs ≡ xs ++ t ∷ []
put_member-last t [] h = refl
put_member-last t (x ∷ xs) h = ground (arith, put_member-last t xs h.1)

ttl-put : (t x : ℕ) (xs : List ℕ) → (set_ttl t (put_member x xs)).ttl ≡ some t
ttl-put t x [] = refl
ttl-put t x (y ∷ xs) = ground arith

module _ (r : Redis) where
  open r use {
    State, zsets, strings, zremrangebyscore, zadd, expire, zsets-zremrangebyscore, zsets-zadd,
    zsets-expire, strings-zremrangebyscore, strings-zadd, strings-expire,
  }

  -- The set at `key` once the entries outside the window are gone.
  abbrev pub kept : State → String → ℕ → ℕ → List ℕ
  kept s key w now = inside now (seconds w) (zsets s key).members

  trimmed :
      (s : State) (key : String) (w now : ℕ)
      → zsets (zremrangebyscore s key (sub_ℕ now (seconds w))) key
        ≡ keep_members (kept s key w now) (zsets s key).ttl
  trimmed s key w now =
      zsets-zremrangebyscore s key _ key
      ∙ rw (eq_refl key) (
          ap (λ p. keep_members (select p (zsets s key).members) (zsets s key).ttl)
            (fun_ext (not_expired now (seconds w))))

  members-trimmed :
      (s : State) (key : String) (w now : ℕ)
      → (zsets (zremrangebyscore s key (sub_ℕ now (seconds w))) key).members ≡ kept s key w now
  members-trimmed s key w now =
      ap (λ (c : ZsetCell). c.members) (trimmed s key w now) ∙ members-keep _ _

  -- The cell that a call leaves.
  abbrev left : List ℕ → Option ℕ → ℕ → ℕ → ℕ → ZsetCell
  left xs ttl limit w now =
      if ltb (length xs) limit
      then set_ttl (seconds (w + 1)) (put_member now xs)
      else keep_members xs ttl

  pub zsets-check :
      (s : State) (key : String) (limit w now : ℕ)
      → zsets (check r s key limit w now).1 key
        ≡ left (kept s key w now) (zsets s key).ttl limit w now
  unfolding check
  zsets-check s key limit w now =
      rw (members-trimmed s key w now) (elim (Bool-cases (ltb (length (kept s key w now)) limit)) [
        | inl y ↦ rw y (
            rw (zsets-expire, eq_refl key)
              (rw (zsets-zadd, eq_refl key) (rw (members-trimmed s key w now) refl)))
        | inr n ↦ rw n (trimmed s key w now)
      ])

  -- The answer, field by field.
  pub result-check :
      (s : State) (key : String) (limit w now : ℕ)
      → (check r s key limit w now).0 ≡ (
          if ltb (length (kept s key w now)) limit
          then record {
            allowed = true;
            limit = limit;
            remaining = limit - length (kept s key w now) - 1;
            reset_in = w;
          }
          else record {
            allowed = false;
            limit = limit;
            remaining = 0;
            reset_in = reset_after (kept s key w now) w now;
          })
  unfolding check
  result-check s key limit w now =
      rw (members-trimmed s key w now) (elim (Bool-cases (ltb (length (kept s key w now)) limit)) [
        | inl y ↦ rw y refl
        | inr n ↦ rw n refl
      ])

  -- No other set and no string is written.
  pub zsets-check_ne :
      (s : State) (key other : String) (limit w now : ℕ)
      → (key == other) ≡ false
      → zsets (check r s key limit w now).1 other ≡ zsets s other
  unfolding check
  zsets-check_ne s key other limit w now e = ground (
    arith,
    zsets-expire (zadd (zremrangebyscore s key (sub_ℕ now (seconds w))) key now) key
        (seconds (w + 1)) other,
    zsets-zadd (zremrangebyscore s key (sub_ℕ now (seconds w))) key now other,
    zsets-zremrangebyscore s key (sub_ℕ now (seconds w)) other,
  )

  pub strings-check :
      (s : State) (key : String) (limit w now : ℕ) (j : StringKey)
      → strings (check r s key limit w now).1 j ≡ strings s j
  unfolding check
  strings-check s key limit w now j = ground (
    arith,
    strings-expire (zadd (zremrangebyscore s key (sub_ℕ now (seconds w))) key now) key
        (seconds (w + 1)) j,
    strings-zadd (zremrangebyscore s key (sub_ℕ now (seconds w))) key now j,
    strings-zremrangebyscore s key (sub_ℕ now (seconds w)) j,
  )
