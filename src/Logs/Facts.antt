-- ===== src/Logs/Facts.antt =====
-- What is logged of the events, which logs are listed, and which a purge removes.
use mathlib.Core.List.{Perm, perm_middle, append-nil, append_assoc}
use mathlib.Core.List.Perm
use rate_guardian.Base.{
  ℕ, ◌+◌, ◌*◌, ◌≤◌, ◌≡◌, refl, sym, ap, subst, ◌∙◌, Bool, true, false, not, Option, none, some,
  List, [], ◌∷◌, ◌++◌, map, length, suc, zero, leb, take, select, arith, ◌⊎◌, inl, inr,
  IsDescending, sub_ℕ, if◌then◌else◌,
}
use rate_guardian.Models.{RequestLog}
use rate_guardian.Table.{Table}
use rate_guardian.EventManager.{EventManager, Event, blocked, forwarded, emit, subscribe, call_all}
use rate_guardian.Logs.{
  Average, stats, minute, Entry, log_id, record_async, on_blocked, on_forwarded, log_listener,
  new_log, before, day, create, write, write_all, get_recent, delete_older_than, purge_old,
}

-- What an event says, as an entry.
abbrev pub entry_of : Event → Entry
entry_of (blocked b) = record {
  client_ip = b.client_ip;
  method = b.method;
  path = b.path;
  upstream = b.upstream;
  status_code = b.status_code;
  latency_ms = b.latency_ms;
  blocked = true;
  blocked_by = some b.reason;
}
entry_of (forwarded f) = record {
  client_ip = f.client_ip;
  method = f.method;
  path = f.path;
  upstream = f.upstream;
  status_code = f.status_code;
  latency_ms = f.latency_ms;
  blocked = false;
  blocked_by = none;
}

-- What a row of the table says.
abbrev pub content : RequestLog → Entry
content x = record {
  client_ip = x.client_ip;
  method = x.method;
  path = x.path;
  upstream = x.upstream;
  status_code = x.status_code;
  latency_ms = x.latency_ms;
  blocked = x.blocked;
  blocked_by = x.blocked_by;
}

abbrev pub no_handlers : EventManager (List Entry)
no_handlers = record { handlers = λ kind. [] }

-- The entries pending after the events, none of which a handler failed on.
unfoldable pub emit_all : List Event → List Entry → Option (List Entry)
emit_all [] pending = some pending
emit_all (e ∷ es) pending =
    let (pending', raised) = emit (log_listener no_handlers) e pending in
    let rest = emit_all es pending' in if raised then none else rest

-- Every task runs at its time and the database takes it.
abbrev pub taken : List (ℕ × Entry) → List (Bool × ℕ × Entry)
taken [] = []
taken ((now, e) ∷ tasks) = (true, now, e) ∷ taken tasks

abbrev pub entries : List (ℕ × Entry) → List Entry
entries [] = []
entries ((now, e) ∷ tasks) = e ∷ entries tasks

abbrev pub at_times : List ℕ → List Entry → List (ℕ × Entry)
at_times [] es = []
at_times (now ∷ times) [] = []
at_times (now ∷ times) (e ∷ es) = (now, e) ∷ at_times times es

length-map : {A B : Type 0} (f : A → B) (xs : List A) → length (map f xs) ≡ length xs
length-map f [] = refl
length-map f (x ∷ xs) = ap suc (length-map f xs)

entries-at_times :
    (times : List ℕ) (es : List Entry) → length times ≡ length es → entries (at_times times es) ≡ es
entries-at_times [] [] h = refl
entries-at_times [] (e ∷ es) h = ground (arith, h)
entries-at_times (now ∷ times) [] h = ground (arith, h)
entries-at_times (now ∷ times) (e ∷ es) h =
    ap (λ xs. e ∷ xs) (entries-at_times times es (omega arith))

abbrev pub drop {ℓ} : {A : Type ℓ} → ℕ → List A → List A
drop zero xs = xs
drop (suc n) [] = []
drop (suc n) (x ∷ xs) = drop n xs

pub take-drop {ℓ} : {A : Type ℓ} (n : ℕ) (xs : List A) → take n xs ++ drop n xs ≡ xs
take-drop zero xs = refl
take-drop (suc n) [] = refl
take-drop (suc n) (x ∷ xs) = ap (λ ys. x ∷ ys) (take-drop n xs)

pub take_all {ℓ} : {A : Type ℓ} (n : ℕ) (xs : List A) → (drop n xs ≡ []) ⊎ (length (take n xs) ≡ n)
take_all zero xs = inr refl
take_all (suc n) [] = inl refl
take_all (suc n) (x ∷ xs) = elim (take_all n xs) [ inl e ↦ inl e | inr e ↦ inr (ap suc e) ]

pub length-take-le {ℓ} : {A : Type ℓ} (n : ℕ) (xs : List A) → length (take n xs) ≤ n
length-take-le zero xs = omega arith
length-take-le (suc n) [] = omega arith
length-take-le (suc n) (x ∷ xs) = omega (arith, length-take-le n xs)

select-true {ℓ} : {A : Type ℓ} (xs : List A) → select (λ x. true) xs ≡ xs
select-true [] = refl
select-true (x ∷ xs) = ap (λ ys. x ∷ ys) (select-true xs)

pub young :
    (now d : ℕ) (xs : List RequestLog)
    → select (λ x. not (before x.created_at (sub_ℕ now d))) xs
      ≡ select (λ x. leb now (x.created_at + d)) xs
young now d [] = refl
young now d (x ∷ xs) = ground (arith, young now d xs)

pub length-split {ℓ} :
    {A : Type ℓ} (p : A → Bool) (xs : List A)
    → length (select p xs) + length (select (λ x. not (p x)) xs) ≡ length xs
length-split p [] = refl
length-split p (x ∷ xs) = ground (arith, length-split p xs)

pub emit-listener :
    (e : Event) (pending : List Entry)
    → emit (log_listener no_handlers) e pending ≡ (pending ++ entry_of e ∷ [], false)
unfolding emit log_listener subscribe call_all on_blocked on_forwarded record_async
emit-listener (blocked b) pending = refl
emit-listener (forwarded f) pending = refl

emit_all-entries :
    (es : List Event) (pending : List Entry)
    → emit_all es pending ≡ some (pending ++ map entry_of es)
unfolding emit_all
emit_all-entries [] pending = ap some (sym (append-nil pending))
emit_all-entries (e ∷ es) pending =
    rw (emit-listener e pending, emit_all)
      (emit_all-entries es (pending ++ entry_of e ∷ [])
        ∙ ap some (append_assoc pending (entry_of e ∷ []) _))

module _ (t : Table RequestLog log_id) where
  write_all-content :
      (tasks : List (ℕ × Entry)) (db : t.State)
      → Perm
          (map content (t.rows (write_all t (taken tasks) db)))
          (entries tasks ++ map content (t.rows db))
  unfolding write_all write create
  write_all-content [] db = Perm.refl _
  write_all-content ((now, e) ∷ tasks) db =
      Perm.trans (write_all-content tasks (create t (new_log e now) db)) (
        Perm.trans
          (Perm.append_left (entries tasks) (Perm.map content (t.rows-insert db (new_log e now))))
          (perm_middle (entries tasks) _))

  -- Any events emitted to an event manager that has a log listener become pending entries
  -- without an exception, and once the tasks have run in order, each at its own time and with
  -- the database taking the row, the table holds what the events say and what it held before.
  pub emitted_is_logged :
      (es : List Event) (times : List ℕ) (db : t.State)
      → length times ≡ length es
      → (pending : List Entry) × (emit_all es [] ≡ some pending)
        × Perm
            (map content (t.rows (write_all t (taken (at_times times pending)) db)))
            (map entry_of es ++ map content (t.rows db))
  emitted_is_logged es times db n = (
    map entry_of es,
    emit_all-entries es [],
    subst
        (λ (xs : List Entry).
          Perm (map content (t.rows (write_all t (taken (at_times times (map entry_of es))) db)))
            (xs ++ map content (t.rows db)))
        (entries-at_times times (map entry_of es) (n ∙ sym (length-map entry_of es)))
        (write_all-content (at_times times (map entry_of es)) db),
  )

  -- `get_recent` lists logs, only blocked ones if asked, newest first; the logs left out are no
  -- newer, and there are none unless the list has `limit` entries, which is the most that it
  -- can have.
  pub newest_first :
      (limit : ℕ) (blocked_only : Bool) (db : t.State)
      → let recent = get_recent t limit blocked_only db in
        let wanted = select (λ x. if blocked_only then x.blocked else true) (t.rows db) in
        (rest : List RequestLog) × Perm (recent ++ rest) wanted
        × IsDescending (λ x. x.created_at) (recent ++ rest)
        × ((rest ≡ []) ⊎ (length recent ≡ limit))
        × (length recent ≤ limit)
  unfolding get_recent
  newest_first limit blocked_only db =
      let key = λ (x : RequestLog). x.created_at in
      let q = if blocked_only then select (λ x. x.blocked) (t.rows db) else t.rows db in
      let sorted = t.descending key q in
      (
        drop limit sorted,
        rw take-drop (rw (← wanted blocked_only (t.rows db)) (t.perm-descending key q)),
        rw take-drop (t.descending-IsDescending key q),
        take_all limit sorted,
        length-take-le limit sorted,
      )
    where
      wanted :
          (b : Bool) (xs : List RequestLog)
          → (if b then select (λ x. x.blocked) xs else xs)
            ≡ select (λ x. if b then x.blocked else true) xs
      wanted true xs = refl
      wanted false xs = sym (select-true xs)

  -- A purge leaves the logs that are at most `days` days old, and its number and the logs left
  -- add up to the logs before.
  pub purge_old_lem :
      (days now : ℕ) (db : t.State)
      → Perm
          (t.rows (purge_old t days now db).1)
          (select (λ x. leb now (x.created_at + days * day)) (t.rows db))
        × ((purge_old t days now db).0
              + length (select (λ x. leb now (x.created_at + days * day)) (t.rows db))
            ≡ length (t.rows db))
  unfolding purge_old delete_older_than
  purge_old_lem days now db =
      let p = λ (x : RequestLog). before x.created_at (sub_ℕ now (days * day)) in
      let same = young now (days * day) (t.rows db) in
      (
        subst (Perm (t.rows (t.delete db p).1)) same (t.rows-delete db p),
        rw (← same) (rw t.count-delete (length-split p (t.rows db))),
      )

module _ (t : Table RequestLog log_id) (F : Type 0) (a : Average F) where
  -- `stats` counts the logs that are at most `since_minutes` old, the blocked ones among them,
  -- and as allowed the ones that are not blocked; blocked and allowed ones add up to the total.
  pub stats_lem :
      (since_minutes now : ℕ) (db : t.State)
      → let q = select (λ x. leb now (x.created_at + since_minutes * minute)) (t.rows db) in
        let answer = stats t F a since_minutes now db in
        (answer.total_requests ≡ length q)
        × (answer.blocked_requests ≡ length (select (λ x. x.blocked) q))
        × (answer.allowed_requests ≡ length (select (λ x. not x.blocked) q))
        × (answer.blocked_requests + answer.allowed_requests ≡ answer.total_requests)
  unfolding stats
  stats_lem since_minutes now db =
      let same = young now (since_minutes * minute) (t.rows db) in
      let split =
        length-split (λ (x : RequestLog). x.blocked)
          (select (λ x. not (before x.created_at (sub_ℕ now (since_minutes * minute))))
            (t.rows db)) in
      rw (← same) (refl, refl, omega (arith, split), omega (arith, split))
