-- ===== src/Core/Numbers.antt =====
-- What app/core/config.py reads as a number.
use mathlib.Core.List.{append_assoc}
use rate_guardian.Base.{
  ℕ, zero, suc, ◌+◌, ◌-◌, ◌*◌, ◌/◌, ◌%◌, ◌≤◌, ◌<◌, ◌≡◌, refl, sym, ap, ◌∙◌, subst, Bool, true,
  false, not, ◌&&◌, ◌||◌, Option, none, some, List, [], ◌∷◌, ◌++◌, arith, leb, ltb, nat_eq, length,
  length-append, inl, inr, Bool-cases, ℤ, pos,
}
use rate_guardian.Page.Text.{digits, decimal}
use rate_guardian.Core.{is_digit, is_blank, all_blank, read_digits, signed, int}

digits-one : (fuel n : ℕ) → ltb n 10 ≡ true → digits (suc fuel) n ≡ (48 + n) ∷ []
unfolding digits
digits-one fuel n h = rw (h, digits) refl

digits-more :
    (fuel n : ℕ)
    → ltb n 10 ≡ false
    → digits (suc fuel) n ≡ digits fuel (n / 10) ++ ((48 + n % 10) ∷ [])
unfolding digits
digits-more fuel n h = rw (h, digits) refl

-- One digit more.
read-digit :
    (must : Bool) (value count d value' : ℕ) (rest : List ℕ)
    → d < 10
    → 10 * value + d ≡ value'
    → read_digits must value count ((48 + d) ∷ rest) ≡ read_digits false value' (count + 1) rest
unfolding read_digits
read-digit must value count d value' rest h e =
    let digit : is_digit (48 + d) ≡ true = ground arith in
    let same : 10 * value + (48 + d - 48) ≡ value' = omega (arith, e) in
    rw (digit, read_digits) (ap (λ x. read_digits false x (count + 1) rest) same)

count_more :
    (n count size : ℕ) (xs ys : List ℕ) (rest : List ℕ)
    → length ys ≡ size
    → read_digits false n (count + length xs + size) rest
      ≡ read_digits false n (count + length (xs ++ ys)) rest
count_more n count size xs ys rest e =
    ap (λ x. read_digits false n x rest) (omega (arith, length-append xs ys, e))

-- The digits of a number are read back.
pub read-digits :
    (fuel n count : ℕ) (rest : List ℕ)
    → n < fuel
    → read_digits true 0 count (digits fuel n ++ rest)
      ≡ read_digits false n (count + length (digits fuel n)) rest
read-digits zero n count rest h = ground arith
read-digits (suc fuel) n count rest h = elim (Bool-cases (ltb n 10)) [
  | inl y ↦ rw (digits-one fuel n y) (read-digit true 0 count n n rest (ground arith) (omega arith))
  | inr k ↦
      let ds = digits fuel (n / 10) in
      let d = 48 + n % 10 in
      rw (digits-more fuel n k) (
        ap (λ xs. read_digits true 0 count xs) (append_assoc ds (d ∷ []) rest)
        ∙ read-digits fuel (n / 10) count (d ∷ rest) (ground arith)
        ∙ read-digit false (n / 10) (count + length ds) (n % 10) n rest (omega arith) (omega arith)
        ∙ count_more n count 1 ds (d ∷ []) rest refl)
]

digits-first :
    (fuel n : ℕ) → n < fuel → (d : ℕ) × (ds : List ℕ) × (digits fuel n ≡ (48 + d) ∷ ds) × (d < 10)
digits-first zero n h = ground arith
digits-first (suc fuel) n h = elim (Bool-cases (ltb n 10)) [
  | inl y ↦ (n, [], digits-one fuel n y, ground arith)
  | inr k ↦
      let (d, ds, e, l) = digits-first fuel (n / 10) (ground arith) in
      (d, ds ++ ((48 + n % 10) ∷ []), digits-more fuel n k ∙ rw e refl, l)
]

both : (a b : Bool) → a && b ≡ true → (a ≡ true) × (b ≡ true)
both true true h = (refl, refl)
both true false h = cc
both false b h = cc

blank-else : (c : ℕ) → is_blank c ≡ true → (is_digit c ≡ false) × (nat_eq c 95 ≡ false)
blank-else c h = (ground arith, ground arith)

digit-else :
    (d : ℕ)
    → d < 10
    → (is_blank (48 + d) ≡ false) × (nat_eq (48 + d) 45 ≡ false) × (nat_eq (48 + d) 43 ≡ false)
digit-else d h = (ground arith, ground arith, ground arith)

-- What follows the digits is white space.
read-blank :
    (n count : ℕ) (after : List ℕ)
    → all_blank after ≡ true
    → leb count 4300 ≡ true
    → read_digits false n count after ≡ some n
unfolding read_digits
read-blank n count [] h l = rw l refl
read-blank n count (c ∷ cs) h l =
    let (blank, blanks) = both (is_blank c) (all_blank cs) h in
    let (digit, underscore) = blank-else c blank in
    rw (digit, underscore, blank, blanks, l, read_digits) refl

signed-digits :
    (d : ℕ) (xs : List ℕ) (n : ℕ)
    → d < 10
    → read_digits true 0 0 ((48 + d) ∷ xs) ≡ some n
    → signed ((48 + d) ∷ xs) ≡ some (pos n)
unfolding signed
signed-digits d xs n h e =
    let (blank, minus, plus) = digit-else d h in rw (minus, plus, e, signed) refl

int-blank :
    (before xs : List ℕ) (d : ℕ) (z : Option ℤ)
    → all_blank before ≡ true
    → d < 10
    → signed ((48 + d) ∷ xs) ≡ z
    → int (before ++ ((48 + d) ∷ xs)) ≡ z
unfolding int
int-blank [] xs d z h l e = let (blank, minus, plus) = digit-else d l in rw (blank, int) e
int-blank (c ∷ before) xs d z h l e =
    let (blank, blanks) = both (is_blank c) (all_blank before) h in
    rw (blank, int) (int-blank before xs d z blanks l e)

pub int-decimal :
    (before after : List ℕ) (n : ℕ)
    → all_blank before ≡ true
    → all_blank after ≡ true
    → length (decimal n) ≤ 4300
    → int (before ++ (decimal n ++ after)) ≡ some (pos n)
unfolding decimal
int-decimal before after n b a l =
    let (d, ds, e, small) = digits-first (suc n) n (omega arith) in
    let read : read_digits true 0 0 (digits (suc n) n ++ after) ≡ some n =
      read-digits (suc n) n 0 after (omega arith)
      ∙ read-blank n (0 + length (digits (suc n) n)) after a (ground arith) in
    ap (λ xs. int (before ++ (xs ++ after))) e
    ∙ int-blank before (ds ++ after) d (some (pos n)) b small (
        signed-digits d (ds ++ after) n small
          (subst (λ xs. read_digits true 0 0 (xs ++ after) ≡ some n) e read))

-- A character that no number has.
abbrev pub is_foreign : ℕ → Bool
is_foreign c =
    not (is_digit c) && (not (is_blank c) && not (nat_eq c 43 || (nat_eq c 45 || nat_eq c 95)))

abbrev pub any_foreign : List ℕ → Bool
any_foreign [] = false
any_foreign (c ∷ cs) = is_foreign c || any_foreign cs

rest-foreign :
    (c : ℕ) (cs : List ℕ)
    → is_foreign c ≡ false
    → any_foreign (c ∷ cs) ≡ true
    → any_foreign cs ≡ true
rest-foreign c cs n h = sym (rw n refl) ∙ h

foreign-else :
    (c : ℕ)
    → is_foreign c ≡ true
    → (is_digit c ≡ false)
      × (is_blank c ≡ false)
      × (nat_eq c 45 ≡ false)
      × (nat_eq c 43 ≡ false)
      × (nat_eq c 95 ≡ false)
foreign-else c h = (ground arith, ground arith, ground arith, ground arith, ground arith)

never : (a b c : Bool) → a && b && false && c ≡ false
never true true c = refl
never true false c = refl
never false b c = refl

never_blank : (a b c : Bool) → a && false && b && c ≡ false
never_blank true b c = refl
never_blank false b c = refl

blank-foreign : (cs : List ℕ) → any_foreign cs ≡ true → all_blank cs ≡ false
blank-foreign [] h = cc
blank-foreign (c ∷ cs) h = elim (Bool-cases (is_blank c)) [
  | inl y ↦
      let known : is_foreign c ≡ false = ground arith in
      rw (y, blank-foreign cs (rest-foreign c cs known h)) refl
  | inr n ↦ rw n refl
]

read-foreign :
    (must : Bool) (value count : ℕ) (cs : List ℕ)
    → any_foreign cs ≡ true
    → read_digits must value count cs ≡ none
unfolding read_digits
read-foreign must value count [] h = cc
read-foreign must value count (c ∷ cs) h = elim (Bool-cases (is_foreign c)) [
  | inl y ↦
      let (digit, blank, minus, plus, underscore) = foreign-else c y in
      rw (digit, underscore, blank, read_digits)
        (rw (never_blank (not must) (all_blank cs) (leb count 4300)) refl)
  | inr n ↦
      let k = rest-foreign c cs n h in
      elim (Bool-cases (is_digit c)) [
        | inl y ↦ rw (y, read_digits) (read-foreign false (10 * value + (c - 48)) (count + 1) cs k)
        | inr d ↦ elim (Bool-cases (nat_eq c 95 && not must)) [
          | inl y ↦ rw (d, y, read_digits) (read-foreign true value count cs k)
          | inr u ↦
              rw (d, u, blank-foreign cs k, read_digits)
                (rw (never (not must) (is_blank c) (leb count 4300)) refl)
        ]
      ]
]

signed-foreign : (cs : List ℕ) → any_foreign cs ≡ true → signed cs ≡ none
unfolding signed
signed-foreign [] h = cc
signed-foreign (c ∷ cs) h = elim (Bool-cases (nat_eq c 45)) [
  | inl y ↦
      let known : is_foreign c ≡ false = ground arith in
      rw (y, read-foreign true 0 0 cs (rest-foreign c cs known h), signed) refl
  | inr m ↦ elim (Bool-cases (nat_eq c 43)) [
    | inl y ↦
        let known : is_foreign c ≡ false = ground arith in
        rw (m, y, read-foreign true 0 0 cs (rest-foreign c cs known h), signed) refl
    | inr p ↦ rw (m, p, read-foreign true 0 0 (c ∷ cs) h, signed) refl
  ]
]

pub int-foreign : (cs : List ℕ) → any_foreign cs ≡ true → int cs ≡ none
unfolding int
int-foreign [] h = cc
int-foreign (c ∷ cs) h = elim (Bool-cases (is_blank c)) [
  | inl y ↦
      let known : is_foreign c ≡ false = ground arith in
      rw (y, int) (int-foreign cs (rest-foreign c cs known h))
  | inr n ↦ rw (n, int) (signed-foreign (c ∷ cs) h)
]
