-- ===== src/RateLimiter/Window.antt =====
-- The sliding window as a specification: the times of the admitted requests, and nothing else.
use rate_guardian.Base.{
  ℕ, ◌+◌, ◌≤◌, ◌≡◌, Bool, ◌&&◌, List, [], ◌∷◌, ◌++◌, arith, ltb, leb, length, select, if◌then◌else◌,
}

-- `t` has not left the window of length `w` that ends at `now`.
abbrev pub is_inside : ℕ → ℕ → ℕ → Bool
is_inside now w t = ltb now (t + w)

abbrev pub inside : ℕ → ℕ → List ℕ → List ℕ
inside now w = select (is_inside now w)

-- A request is admitted if fewer than `limit` admitted ones are in the window.
abbrev pub admits : ℕ → ℕ → List ℕ → ℕ → Bool
admits limit w history now = ltb (length (inside now w history)) limit

unfoldable pub admit : ℕ → ℕ → List ℕ → ℕ → List ℕ
admit limit w history now = if admits limit w history now then history ++ now ∷ [] else history

-- Requests at given gaps from one another, the first `gap` after `now`: the answers, and the
-- history that they leave.
unfoldable pub run_window : ℕ → ℕ → List ℕ → ℕ → List ℕ → List Bool × List ℕ
run_window limit w history now [] = ([], history)
run_window limit w history now (gap ∷ gaps) =
    let t = now + gap in
    let (answers, end) = run_window limit w (admit limit w history t) t gaps in
    (admits limit w history t ∷ answers, end)

-- The admitted requests of the window that ends at `t`, later ones left out.
abbrev pub in_window : ℕ → ℕ → ℕ → Bool
in_window t w x = leb x t && ltb t (x + w)

abbrev pub load : ℕ → ℕ → List ℕ → ℕ
load t w history = length (select (in_window t w) history)

pub load-append : (t w : ℕ) (xs ys : List ℕ) → load t w (xs ++ ys) ≡ load t w xs + load t w ys
load-append t w [] ys = omega arith
load-append t w (x ∷ xs) ys = ground (arith, load-append t w xs ys)

-- From `now` on, a window holds no more of the past than the window that ends at `now`.
load-le-inside : (t now w : ℕ) (xs : List ℕ) → now ≤ t → load t w xs ≤ length (inside now w xs)
load-le-inside t now w [] h = omega arith
load-le-inside t now w (x ∷ xs) h = ground (arith, load-le-inside t now w xs h)

abbrev pub IsBounded : ℕ → ℕ → List ℕ → Type 0
IsBounded limit w history = (t : ℕ) → load t w history ≤ limit

pub admit-IsBounded :
    (limit w : ℕ) (history : List ℕ) (now : ℕ)
    → IsBounded limit w history
    → IsBounded limit w (admit limit w history now)
unfolding admit
admit-IsBounded limit w history now h t =
    ground (arith, h t, load-append t w history (now ∷ []), load-le-inside t now w history)

pub run_window-IsBounded :
    (limit w : ℕ) (history : List ℕ) (now : ℕ) (gaps : List ℕ)
    → IsBounded limit w history
    → IsBounded limit w (run_window limit w history now gaps).1
unfolding run_window
run_window-IsBounded limit w history now [] h = h
run_window-IsBounded limit w history now (gap ∷ gaps) h =
    run_window-IsBounded limit w (admit limit w history (now + gap)) (now + gap) gaps
      (admit-IsBounded limit w history (now + gap) h)
