-- ===== src/Redis/Cells.antt =====
-- What the server holds at a key, and what each command makes of it.
use rate_guardian.Base.{
  ℕ, ◌+◌, ◌-◌, ◌≡◌, String, Option, none, some, List, [], ◌∷◌, ltb, leb, leb_ℤ, ℤ, not, select,
  ◌==◌, if◌then◌else◌,
}
use rate_guardian.Models.{CachedRule}
use rate_guardian.Redis.Keys.{StringKey, key_eq}

-- A stored string, by the Python value that was written. A `text` is the text of no number.
pub data Value : Type 0 where
  text : String → Value
  int : ℕ → Value
  float : ℕ → Value
  json : List CachedRule → Value

-- `ttl` is what is left of a key's time to live; `none` lives for ever.
pub record StringCell : Type 0 where
  pub value : Option Value
  pub ttl : Option ℕ

pub record ZsetCell : Type 0 where
  pub members : List ℕ
  pub ttl : Option ℕ

abbrev pub vacant : StringCell
vacant = record { value = none; ttl = none }

abbrev pub vacant_zset : ZsetCell
vacant_zset = record { members = []; ttl = none }

-- The number that INCR counts on from: 0 for a missing key. INCR fails on anything else.
abbrev pub count_of : Option Value → Option ℕ
count_of none = some 0
count_of (some (int n)) = some n
count_of (some _) = none

-- An ascending list with a time put in; a member that is there stays.
abbrev pub put_member : ℕ → List ℕ → List ℕ
put_member t [] = t ∷ []
put_member t (x ∷ xs) =
    if ltb t x then t ∷ x ∷ xs else if ltb x t then x ∷ put_member t xs else x ∷ xs

-- A sorted set that becomes empty is removed, with its time to live.
abbrev pub keep_members : List ℕ → Option ℕ → ZsetCell
keep_members [] ttl = vacant_zset
keep_members (x ∷ xs) ttl = record { members = x ∷ xs; ttl = ttl }

abbrev pub age_string : ℕ → StringCell → StringCell
age_string d c = elim c.ttl [
  | none ↦ c
  | some r ↦ if leb r d then vacant else record c { ttl = some (r - d) }
]

abbrev pub age_zset : ℕ → ZsetCell → ZsetCell
age_zset d c = elim c.ttl [
  | none ↦ c
  | some r ↦ if leb r d then vacant_zset else record c { ttl = some (r - d) }
]

abbrev pub set_ttl : ℕ → List ℕ → ZsetCell
set_ttl secs [] = vacant_zset
set_ttl secs (x ∷ xs) = record { members = x ∷ xs; ttl = some secs }

pub record Redis : Type 1 where
  pub State : Type 0
  -- what a client can read
  pub strings : State → StringKey → StringCell
  pub zsets : State → String → ZsetCell
  -- SET, SETEX, INCR with its reply, DEL
  pub set : State → StringKey → Value → State
  pub setex : State → StringKey → ℕ → Value → State
  pub incr : State → StringKey → ℕ × State
  pub delete : State → StringKey → State
  -- ZREMRANGEBYSCORE key -inf max, ZADD, EXPIRE on a sorted set
  pub zremrangebyscore : State → String → ℤ → State
  pub zadd : State → String → ℕ → State
  pub expire : State → String → ℕ → State
  -- The server's clock moves on.
  pub elapse : State → ℕ → State
  pub strings-set :
      (s : State) (k : StringKey) (v : Value) (j : StringKey)
      → strings (set s k v) j
        ≡ (if key_eq k j then record { value = some v; ttl = none } else strings s j)
  pub zsets-set :
      (s : State) (k : StringKey) (v : Value) (z : String) → zsets (set s k v) z ≡ zsets s z
  pub strings-setex :
      (s : State) (k : StringKey) (secs : ℕ) (v : Value) (j : StringKey)
      → strings (setex s k secs v) j
        ≡ (if key_eq k j then record { value = some v; ttl = some secs } else strings s j)
  pub zsets-setex :
      (s : State) (k : StringKey) (secs : ℕ) (v : Value) (z : String)
      → zsets (setex s k secs v) z ≡ zsets s z
  pub reply-incr :
      (s : State) (k : StringKey) (n : ℕ)
      → count_of (strings s k).value ≡ some n
      → (incr s k).0 ≡ n + 1
  pub strings-incr :
      (s : State) (k : StringKey) (n : ℕ)
      → count_of (strings s k).value ≡ some n
      → (j : StringKey)
      → strings (incr s k).1 j ≡ (
          if key_eq k j
          then record { value = some (int (n + 1)); ttl = (strings s k).ttl }
          else strings s j)
  pub zsets-incr : (s : State) (k : StringKey) (z : String) → zsets (incr s k).1 z ≡ zsets s z
  pub strings-delete :
      (s : State) (k j : StringKey)
      → strings (delete s k) j ≡ (if key_eq k j then vacant else strings s j)
  pub zsets-delete : (s : State) (k : StringKey) (z : String) → zsets (delete s k) z ≡ zsets s z
  pub zsets-zremrangebyscore :
      (s : State) (k : String) (most : ℤ) (z : String)
      → zsets (zremrangebyscore s k most) z ≡ (
          if k == z
          then keep_members (select (λ x. not (leb_ℤ x most)) (zsets s k).members) (zsets s k).ttl
          else zsets s z)
  pub strings-zremrangebyscore :
      (s : State) (k : String) (most : ℤ) (j : StringKey)
      → strings (zremrangebyscore s k most) j ≡ strings s j
  pub zsets-zadd :
      (s : State) (k : String) (t : ℕ) (z : String)
      → zsets (zadd s k t) z ≡ (
          if k == z
          then record (zsets s k) { members = put_member t (zsets s k).members }
          else zsets s z)
  pub strings-zadd :
      (s : State) (k : String) (t : ℕ) (j : StringKey) → strings (zadd s k t) j ≡ strings s j
  pub zsets-expire :
      (s : State) (k : String) (ttl : ℕ) (z : String)
      → zsets (expire s k ttl) z ≡ (if k == z then set_ttl ttl (zsets s k).members else zsets s z)
  pub strings-expire :
      (s : State) (k : String) (ttl : ℕ) (j : StringKey) → strings (expire s k ttl) j ≡ strings s j
  pub strings-elapse :
      (s : State) (d : ℕ) (j : StringKey) → strings (elapse s d) j ≡ age_string d (strings s j)
  pub zsets-elapse :
      (s : State) (d : ℕ) (z : String) → zsets (elapse s d) z ≡ age_zset d (zsets s z)
