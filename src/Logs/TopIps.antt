-- ===== src/Logs/TopIps.antt =====
-- `LogRepository.top_ips` of app/models/repositories/log_repository.py: whose requests it counts.
use mathlib.Core.List.{Mem, mem-cons, mem-cons_self, mem-cons_of_mem, not-mem-nil}
use mathlib.Core.List.Perm
use mathlib.Core.Logic.Or
use native.Mathlib.Bridge.{le_prop}
use rate_guardian.Base.{
  ℕ, ◌+◌, ◌*◌, ◌<◌, ◌≤◌, ◌≡◌, refl, sym, ap, ◌∙◌, ◌↔◌, ◌⊎◌, inl, inr, String, not, List, [], ◌∷◌,
  ◌++◌, length, leb, select, arith, Bool-cases, IsDescending, sub_ℕ, ◌==◌, eq_iff, eq_refl,
  if◌then◌else◌,
}
use rate_guardian.Models.{RequestLog}
use rate_guardian.Table.{Table}
use rate_guardian.Table.Groups.{count_in, groups, count_of_group, Grouping}
use rate_guardian.Logs.{log_id, minute, before, top_ips}
use rate_guardian.Logs.Facts.{drop, take-drop, take_all, length-take-le, young}

-- The count of a key, 0 for none.
abbrev count_for : String → List (String × ℕ) → ℕ
count_for k [] = 0
count_for k ((j, n) ∷ d) = if j == k then n else count_for k d

-- Every group has a row, and no two have one key.
abbrev IsCounted : List (String × ℕ) → Type 0
IsCounted [] = Unit
IsCounted ((j, n) ∷ d) = (0 < n) × (count_for j d ≡ 0) × IsCounted d

count_for-count_in :
    (k j : String) (d : List (String × ℕ))
    → count_for j (count_in k d) ≡ (if k == j then 1 else 0) + count_for j d
count_for-count_in k j [] = ground arith
count_for-count_in k j ((i, n) ∷ d) =
    ground (arith, eq_iff k j, eq_iff i k, eq_iff i j, count_for-count_in k j d)

count_in-IsCounted : (k : String) (d : List (String × ℕ)) → IsCounted d → IsCounted (count_in k d)
count_in-IsCounted k [] h = (omega arith, refl, tt)
count_in-IsCounted k ((i, n) ∷ d) h =
    ground (arith, eq_iff i k, eq_iff k i, count_for-count_in k i d, count_in-IsCounted k d)

group-prop : (n c : ℕ) → IsProp ((n ≡ c) × (0 < n))
group-prop n c = hlevel le_prop

head-count_for :
    (k j : String) (n m : ℕ) (d : List (String × ℕ))
    → 0 < m
    → ◌≡◌ {A = String × ℕ} (k, n) (j, m)
    → (n ≡ count_for k ((j, m) ∷ d)) × (0 < n)
head-count_for k j n m d h e =
    let ek : k ≡ j = ap (λ (g : String × ℕ). g.0) e in
    let en : n ≡ m = ap (λ (g : String × ℕ). g.1) e in rw (ek, en) (rw eq_refl refl, h)

tail-count_for :
    (k j : String) (n m : ℕ) (d : List (String × ℕ))
    → count_for j d ≡ 0
    → (n ≡ count_for k d) × (0 < n)
    → (n ≡ count_for k ((j, m) ∷ d)) × (0 < n)
tail-count_for k j n m d h i = ground (arith, eq_iff j k, i)

count_for-mem :
    (k : String) (n : ℕ) (d : List (String × ℕ)) → n ≡ count_for k d → 0 < n → Mem (k, n) d
count_for-mem k n [] e h = absurd (omega arith)
count_for-mem k n ((j, m) ∷ d) e h = elim (Bool-cases (j == k)) [
  | inl y ↦ let same : m ≡ n = sym (e ∙ rw y refl) in rw ((eq_iff j k).0 y, same) mem-cons_self
  | inr y ↦ mem-cons_of_mem (j, m) (count_for-mem k n d (e ∙ rw y refl) h)
]

mem-count_for :
    (k : String) (n : ℕ) (d : List (String × ℕ))
    → IsCounted d
    → Mem (k, n) d
    → (n ≡ count_for k d) × (0 < n)
mem-count_for k n [] h m = absurd (not-mem-nil m)
mem-count_for k n ((j, x) ∷ d) h m =
    Or.elim (group-prop n (count_for k ((j, x) ∷ d))) (mem-cons.0 m) (head-count_for k j n x d h.0)
      (λ i. tail-count_for k j n x d h.1 (mem-count_for k n d h.2 i))

-- The requests of an address.
abbrev pub requests_of : String → List RequestLog → ℕ
requests_of ip logs = length (select (λ x. x.client_ip == ip) logs)

groups-IsCounted : (xs : List RequestLog) → IsCounted (groups (λ x. x.client_ip) xs)
groups-IsCounted [] = tt
groups-IsCounted (x ∷ xs) =
    count_in-IsCounted x.client_ip (groups (λ y. y.client_ip) xs) (groups-IsCounted xs)

count_for-groups :
    (ip : String) (xs : List RequestLog)
    → count_for ip (groups (λ x. x.client_ip) xs) ≡ requests_of ip xs
count_for-groups ip [] = refl
count_for-groups ip (x ∷ xs) =
    count_for-count_in x.client_ip ip (groups (λ y. y.client_ip) xs)
    ∙ ground (arith, count_for-groups ip xs)

module _ (t : Table RequestLog log_id) (g : Grouping RequestLog) where
  -- `top_ips` lists addresses with numbers, largest first; with the ones left out, which are no
  -- larger and are none unless the list has `limit` entries, the most that it can have, they
  -- are exactly the addresses of the logs that are at most `since_minutes` old, each with how
  -- many of these logs it has.
  pub top_ips_lem :
      (limit since_minutes now : ℕ) (db : t.State) (ip : String) (n : ℕ)
      → let top = top_ips t g limit since_minutes now db in
        let window = select (λ x. leb now (x.created_at + since_minutes * minute)) (t.rows db) in
        (rest : List (String × ℕ)) × (Mem (ip, n) (top ++ rest)
          ↔ ((n ≡ requests_of ip window) × (0 < n)))
        × IsDescending count_of_group (top ++ rest)
        × ((rest ≡ []) ⊎ (length top ≡ limit))
        × (length top ≤ limit)
  unfolding top_ips
  top_ips_lem limit since_minutes now db ip n =
      let window =
        select (λ x. not (before x.created_at (sub_ℕ now (since_minutes * minute)))) (t.rows db) in
      let all = g.top (λ x. x.client_ip) window in
      let same = young now (since_minutes * minute) (t.rows db) in
      let found = Perm.mem_iff {a = (ip, n)} (g.perm-top (λ x. x.client_ip) window) in
      let count = count_for-groups ip window in
      (
        drop limit all,
        rw (take-drop, ← same)
            (
              λ m.
                  let h = mem-count_for ip n _ (groups-IsCounted window) (found.0 m) in
                  (h.0 ∙ count, h.1),
              λ h. found.1 (count_for-mem ip n _ (h.0 ∙ sym count) h.1),
            ),
        rw take-drop (g.top-IsDescending (λ x. x.client_ip) window),
        take_all limit all,
        length-take-le limit all,
      )
