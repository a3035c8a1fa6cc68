-- ===== src/Logs/Sizes.antt =====
-- How many rows the log of app/models/repositories/log_repository.py has after a write and a purge.
use mathlib.Core.List.{Perm}
use mathlib.Core.List.Perm
use mathlib.Core.List as Lists
use mathlib.Core.Nat as Nat
use rate_guardian.Base.{
  ℕ, suc, ◌+◌, ◌≡◌, refl, ap, sym, ◌∙◌, Bool, true, false, List, [], ◌∷◌, length, arith,
  if◌then◌else◌,
}
use rate_guardian.Models.{RequestLog}
use rate_guardian.Table.{Table}
use rate_guardian.Logs.{Entry, log_id, new_log, create, write, purge_old}
use rate_guardian.Logs.Facts.{purge_old_lem}

native : Nat.ℕ → ℕ
native Nat.zero = 0
native (Nat.suc n) = suc (native n)

native-length {ℓ} : {A : Type ℓ} (xs : List A) → native (Lists.length xs) ≡ length xs
unfolding native
native-length [] = refl
native-length (x ∷ xs) = ap suc (native-length xs)

pub length-Perm {ℓ} : {A : Type ℓ} {xs ys : List A} → Perm xs ys → length xs ≡ length ys
length-Perm {xs = xs} {ys} p =
    sym (native-length xs) ∙ ap native (Perm.length-eq p) ∙ native-length ys

module _ (l : Table RequestLog log_id) where
  pub length-write :
      (up : Bool) (now : ℕ) (e : Entry) (db : l.State)
      → length (l.rows (write l up now e db)) + (if up then 0 else 1) ≡ suc (length (l.rows db))
  unfolding write create
  length-write true now e db =
      let n = length-Perm (l.rows-insert db (new_log e now)) in omega (arith, n)
  length-write false now e db = omega arith

  pub length-purge :
      (days now : ℕ) (db : l.State)
      → length (l.rows (purge_old l days now db).1) + (purge_old l days now db).0
        ≡ length (l.rows db)
  length-purge days now db =
      let (kept, purged) = purge_old_lem l days now db in
      let n = length-Perm kept in omega (arith, purged, n)
