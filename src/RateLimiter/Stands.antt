-- ===== src/RateLimiter/Stands.antt =====
-- How the sorted set of app/models/services/rate_limiter.py stands for a history of `Window`, as
-- time passes and as a request is checked.
use rate_guardian.Base.{
  ℕ, ◌+◌, ◌-◌, ◌≤◌, ◌<◌, ◌≡◌, refl, sym, ap, ◌∙◌, false, Option, none, some, List, [], ◌∷◌, ◌++◌,
  arith, ltb, leb, leb→le, length, All, Bool-cases, inl, inr, if◌then◌else◌,
}
use rate_guardian.Redis.{ZsetCell, put_member, keep_members, set_ttl, age_zset}
use rate_guardian.RateLimiter.{seconds}
use rate_guardian.RateLimiter.Window.{inside, admit}
use rate_guardian.RateLimiter.Effect.{put_member-last}

inside-inside :
    (now later w : ℕ) (xs : List ℕ)
    → now ≤ later
    → inside later w (inside now w xs) ≡ inside later w xs
inside-inside now later w [] h = refl
inside-inside now later w (x ∷ xs) h = ground (arith, inside-inside now later w xs h)

inside-append :
    (now w : ℕ) (xs ys : List ℕ) → inside now w (xs ++ ys) ≡ inside now w xs ++ inside now w ys
inside-append now w [] ys = refl
inside-append now w (x ∷ xs) ys = ground (arith, inside-append now w xs ys)

pub inside-none : (now w : ℕ) (xs : List ℕ) → All (λ t. t + w ≤ now) xs → inside now w xs ≡ []
inside-none now w [] h = refl
inside-none now w (x ∷ xs) h = ground (arith, inside-none now w xs h.1)

pub All-inside {ℓ} : (P : ℕ → Type ℓ) (now w : ℕ) (xs : List ℕ) → All P xs → All P (inside now w xs)
All-inside P now w [] h = h
All-inside P now w (x ∷ xs) h = ground (arith, All-inside P now w xs h.1)

All-snoc {ℓ} : (P : ℕ → Type ℓ) (xs : List ℕ) (x : ℕ) → All P xs → P x → All P (xs ++ x ∷ [])
All-snoc P [] x h p = (p, tt)
All-snoc P (y ∷ xs) x h p = (h.0, All-snoc P xs x h.1 p)

All-map {ℓ κ} :
    {P : ℕ → Type ℓ} {Q : ℕ → Type κ} (f : (x : ℕ) → P x → Q x) (xs : List ℕ) → All P xs → All Q xs
All-map f [] h = tt
All-map f (x ∷ xs) h = (f x h.0, All-map f xs h.1)

-- A cell stands for a history at time `now`.
pub record Stands (w now : ℕ) (c : ZsetCell) (history : List ℕ) : Type 0 where
  pub agrees : inside now w c.members ≡ inside now w history
  pub past : All (λ t. t ≤ now) c.members
  -- The key does not expire before its entries have left the window.
  pub lasts : (rest : ℕ) → c.ttl ≡ some rest → All (λ t. t + w ≤ now + rest) c.members

agrees_later :
    (now later w : ℕ) (xs ys : List ℕ)
    → now ≤ later
    → inside now w xs ≡ inside now w ys
    → inside later w xs ≡ inside later w ys
agrees_later now later w xs ys h e =
    sym (inside-inside now later w xs h) ∙ ap (inside later w) e ∙ inside-inside now later w ys h

age_cell :
    (w now d : ℕ) (xs : List ℕ) (ttl : Option ℕ) (history : List ℕ)
    → Stands w now (record { members = xs; ttl = ttl }) history
    → Stands w (now + d) (age_zset d (record { members = xs; ttl = ttl })) history
age_cell w now d xs none history h = record {
  agrees = agrees_later now (now + d) w xs history (omega arith) h.agrees;
  past = All-map (λ t p. omega arith) xs h.past;
  lasts = λ rest e. cc;
}
age_cell w now d xs (some left) history h =
    let later = agrees_later now (now + d) w xs history (omega arith) h.agrees in
    let alive = h.lasts left refl in
    elim (Bool-cases (leb left d)) [
      | inl y ↦
          let gone =
            inside-none (now + d) w xs (All-map (λ t p. outlived t p (leb→le left d y)) xs alive) in
          rw y (record { agrees = sym gone ∙ later; past = tt; lasts = λ rest e. cc })
      | inr n ↦ rw n (record {
        agrees = later;
        past = All-map (λ t p. omega arith) xs h.past;
        lasts = λ rest e. All-map (λ t p. still t rest p n e) xs alive;
      })
    ]
  where
    outlived : (t : ℕ) → t + w ≤ now + left → left ≤ d → t + w ≤ now + d
    outlived t p q = omega arith

    still :
        (t rest : ℕ)
        → t + w ≤ now + left
        → leb left d ≡ false
        → some (left - d) ≡ some rest
        → t + w ≤ now + d + rest
    still t rest p q e = ground arith

-- Time passes.
pub age-Stands :
    (w now d : ℕ) (c : ZsetCell) (history : List ℕ)
    → Stands w now c history
    → Stands w (now + d) (age_zset d c) history
age-Stands w now d c history h = age_cell w now d c.members c.ttl history h

age_strict_cell :
    (now d : ℕ) (xs : List ℕ) (ttl : Option ℕ)
    → All (λ t. t ≤ now) xs
    → 0 < d
    → All (λ t. t < now + d) (age_zset d (record { members = xs; ttl = ttl })).members
age_strict_cell now d xs none h p = All-map (λ t q. omega arith) xs h
age_strict_cell now d xs (some left) h p = elim (Bool-cases (leb left d)) [
  | inl y ↦ rw y tt
  | inr n ↦ rw n (All-map (λ t q. omega arith) xs h)
]

pub age-strict :
    (now d : ℕ) (c : ZsetCell)
    → All (λ t. t ≤ now) c.members
    → 0 < d
    → All (λ t. t < now + d) (age_zset d c).members
age-strict now d c h p = age_strict_cell now d c.members c.ttl h p

set_ttl-snoc :
    (t x : ℕ) (xs : List ℕ)
    → set_ttl t (xs ++ x ∷ []) ≡ record { members = xs ++ x ∷ []; ttl = some t }
set_ttl-snoc t x [] = refl
set_ttl-snoc t x (y ∷ xs) = refl

keep-Stands :
    (w now : ℕ) (xs : List ℕ) (ttl : Option ℕ) (history : List ℕ)
    → Stands w now (record { members = xs; ttl = ttl }) history
    → Stands w now (keep_members xs ttl) history
keep-Stands w now [] ttl history h = record { agrees = h.agrees; past = tt; lasts = λ rest e. cc }
keep-Stands w now (x ∷ xs) ttl history h = h

-- The request is let in.
enter-Stands :
    (w now : ℕ) (c : ZsetCell) (history : List ℕ)
    → Stands (seconds w) now c history
    → Stands
        (seconds w)
        now
        (record {
          members = inside now (seconds w) c.members ++ now ∷ [];
          ttl = some (seconds (w + 1));
        })
        (history ++ now ∷ [])
enter-Stands w now c history h =
    let ks = inside now (seconds w) c.members in
    record {
      agrees =
          rw
            (
              inside-append now (seconds w) ks (now ∷ []),
              inside-append now (seconds w) history (now ∷ []),
              inside-inside now now (seconds w) c.members (omega arith),
            )
            (ap (λ xs. xs ++ inside now (seconds w) (now ∷ [])) h.agrees);
      past = All-snoc _ ks now (All-inside _ now (seconds w) c.members h.past) (omega arith);
      lasts = λ rest e.
          All-snoc _ ks now
            (All-map (λ t p. fits t rest p e) ks
              (All-inside (λ t. t ≤ now) now (seconds w) c.members h.past))
            (fits now rest (omega arith) e);
    }
  where
    fits : (t rest : ℕ) → t ≤ now → some (seconds (w + 1)) ≡ some rest → t + seconds w ≤ now + rest
    fits t rest p e = ground arith

-- A request is checked, later than all the ones before.
pub check-Stands :
    (limit w now : ℕ) (c : ZsetCell) (history : List ℕ)
    → Stands (seconds w) now c history
    → All (λ t. t < now) c.members
    → Stands
        (seconds w)
        now
        (if ltb (length (inside now (seconds w) c.members)) limit
          then set_ttl (seconds (w + 1)) (put_member now (inside now (seconds w) c.members))
          else keep_members (inside now (seconds w) c.members) c.ttl)
        (admit limit (seconds w) history now)
unfolding admit
check-Stands limit w now c history h p =
    let ks = inside now (seconds w) c.members in
    let fresh = put_member-last now ks (All-inside _ now (seconds w) c.members p) in
    rw (← h.agrees) (elim (Bool-cases (ltb (length ks) limit)) [
      | inl y ↦
          rw (y, fresh, set_ttl-snoc (seconds (w + 1)) now ks) (enter-Stands w now c history h)
      | inr n ↦ rw n (
          keep-Stands (seconds w) now ks c.ttl history (record {
            agrees = inside-inside now now (seconds w) c.members (omega arith) ∙ h.agrees;
            past = All-inside _ now (seconds w) c.members h.past;
            lasts = λ rest e. All-inside _ now (seconds w) c.members (h.lasts rest e);
          }))
    ])
