-- ===== src/Rules/Ids.antt =====
-- The routes of app/controllers/rules.py on the rules that `get_by_id` finds: what a toggle or a
-- delete does to its rule, and to no other.
use mathlib.Core.List.{Mem, Perm, exists_of_mem-map, mem-cons}
use mathlib.Core.List.Perm
use mathlib.Core.Logic.{∥∥₁_elim}
use mathlib.Core.Logic.Or
use mathlib.Core.Option
use text.Mathlib.TextEquality.{IsScalar-prop}
use rate_guardian.Base.{
  ℕ, ◌≡◌, ◌≢◌, refl, sym, ap, ◌∙◌, Bool, true, false, not, none, some, List, [], ◌∷◌, map, select,
  first, arith, ◌⊎◌, inl, inr, Bool-cases, Option-cases, if◌then◌else◌, nat_eq, nat_eq_iff,
  first-some, first-perm, mem-select,
}
use rate_guardian.Models.{Rule}
use rate_guardian.Redis.{Redis}
use rate_guardian.Table.{Table}
use rate_guardian.Rules.{
  RuleCreate, done, not_found, is_valid, new_rule, rule_id, World, create, set_active, delete,
  get_by_id, create_rule, toggle_rule, delete_rule,
}

Rule-set : IsSet Rule
Rule-set = hlevel IsScalar-prop

-- No two rows have one id: `id` is the primary key.
abbrev pub UniqueIds : List Rule → Type 0
UniqueIds xs = (a b : Rule) → Mem a xs → Mem b xs → a.id ≡ b.id → a ≡ b

-- An update that leaves the ids alone.
unique-map :
    (g : Rule → Rule) (xs ys : List Rule)
    → ((x : Rule) → (g x).id ≡ x.id)
    → Perm ys (map g xs)
    → UniqueIds xs
    → UniqueIds ys
unique-map g xs ys same π u a b m n e =
    ∥∥₁_elim (exists_of_mem-map ((Perm.mem_iff π).0 m)) (Rule-set a b) λ (x, mx, ex).
      ∥∥₁_elim (exists_of_mem-map ((Perm.mem_iff π).0 n)) (Rule-set a b) λ (y, my, ey).
        sym ex
        ∙ ap g (u x y mx my (sym (same x) ∙ ap rule_id ex ∙ e ∙ sym (ap rule_id ey) ∙ same y))
        ∙ ey

unique-select :
    (p : Rule → Bool) (xs ys : List Rule) → Perm ys (select p xs) → UniqueIds xs → UniqueIds ys
unique-select p xs ys π u a b m n e =
    u a b (mem-select p xs a ((Perm.mem_iff π).0 m)) (mem-select p xs b ((Perm.mem_iff π).0 n)) e

abbrev has_id : ℕ → Rule → Bool
has_id j x = nat_eq x.id j

found_unique :
    (xs : List Rule) (j : ℕ)
    → UniqueIds xs
    → (a b : Rule) → Mem a xs
    → Mem b xs
    → has_id j a ≡ true
    → has_id j b ≡ true
    → a ≡ b
found_unique xs j u a b m n ha hb = u a b m n (ground arith)

first-map :
    (g : Rule → Rule) (j : ℕ) (xs : List Rule)
    → ((x : Rule) → (g x).id ≡ x.id)
    → first (has_id j) (map g xs) ≡ Option.map g (first (has_id j) xs)
first-map g j [] same = refl
first-map g j (x ∷ xs) same = ground (arith, same x, first-map g j xs same)

unused :
    (id : ℕ) (xs : List Rule) → ((x : Rule) → Mem x xs → x.id ≢ id) → first (has_id id) xs ≡ none
unused id xs fresh = elim (Option-cases (first (has_id id) xs)) [
  | inl e ↦ e
  | inr (x, e) ↦
      let (m, h) = first-some (has_id id) xs x e in absurd (fresh x m ((nat_eq_iff x.id id).0 h))
]

-- A row with an id that no other has.
pub unique-insert :
    (x : Rule) (xs ys : List Rule)
    → ((y : Rule) → Mem y xs → y.id ≢ x.id)
    → Perm ys (x ∷ xs)
    → UniqueIds xs
    → UniqueIds ys
unique-insert x xs ys fresh π u a b m n e =
    Or.elim (Rule-set a b) (mem-cons.0 ((Perm.mem_iff π).0 m))
      (λ ax.
        Or.elim (Rule-set a b) (mem-cons.0 ((Perm.mem_iff π).0 n)) (λ bx. ax ∙ sym bx)
          (λ bm. absurd (fresh b bm (sym e ∙ ap rule_id ax))))
      (λ am.
        Or.elim (Rule-set a b) (mem-cons.0 ((Perm.mem_iff π).0 n))
          (λ bx. absurd (fresh a am (e ∙ ap rule_id bx))) (λ bm. u a b am bm e))

abbrev pub switched : ℕ → Bool → Rule → Rule
switched id active x = if nat_eq x.id id then record x { active = active } else x

keeps_id : (id : ℕ) (active : Bool) (x : Rule) → (switched id active x).id ≡ x.id
keeps_id id active x = ground arith

module _ (r : Redis) (t : Table Rule rule_id) where
  abbrev pub rows : World r t → List Rule
  rows w = t.rows w.db

  -- Where no two rows have one id and a rule has the given id, the toggle request switches that
  -- rule's flag for `get_by_id` and changes nothing that it finds for another id.
  pub get_by_id-toggle :
      (up : Bool) (id : ℕ) (w : World r t) (x : Rule) (j : ℕ)
      → UniqueIds (rows w)
      → get_by_id r t w id ≡ some x
      → get_by_id r t (toggle_rule r t up id w).1 j
        ≡ Option.map (switched id (not x.active)) (get_by_id r t w j)
  unfolding toggle_rule set_active get_by_id
  get_by_id-toggle up id w x j u e =
      let g = switched x.id (not x.active) in
      let same : x.id ≡ id = (nat_eq_iff x.id id).0 (first-some (has_id id) (rows w) x e).1 in
      let π =
        t.rows-update w.db (λ y. nat_eq y.id x.id) (λ y. record y { active = not x.active }) in
      let u' = unique-map g (rows w) _ (λ y. keeps_id x.id (not x.active) y) π u in
      rw (e, toggle_rule)
        (first-perm (has_id j) _ _ π (found_unique _ j u')
          ∙ first-map g j (rows w) (λ y. keeps_id x.id (not x.active) y)
          ∙ ap (λ (i : ℕ). Option.map (switched i (not x.active)) (get_by_id r t w j)) same)

  toggle-UniqueIds :
      (up : Bool) (id : ℕ) (w : World r t)
      → UniqueIds (rows w)
      → UniqueIds (rows (toggle_rule r t up id w).1)
  unfolding toggle_rule set_active
  toggle-UniqueIds up id w u = elim (Option-cases (get_by_id r t w id)) [
    | inl e ↦ rw (e, toggle_rule) u
    | inr (x, e) ↦
        rw (e, toggle_rule)
          (unique-map (switched x.id (not x.active)) (rows w) _
            (λ y. keeps_id x.id (not x.active) y)
            (t.rows-update w.db (λ y. nat_eq y.id x.id) (λ y. record y { active = not x.active }))
            u)
  ]

  restored :
      (id : ℕ) (x : Rule) (xs : List Rule) (j : ℕ)
      → UniqueIds xs
      → first (has_id id) xs ≡ some x
      → Option.map
          (switched id (not (not x.active)))
          (Option.map (switched id (not x.active)) (first (has_id j) xs))
        ≡ first (has_id j) xs
  restored id x xs j u e = elim (Option-cases (first (has_id j) xs)) [
    | inl n ↦ rw n refl
    | inr (y, f) ↦
        rw f (ap some (back y (Bool-cases (nat_eq y.id id)) (first-some (has_id j) xs y f).0))
  ]
    where
      twice :
          (y : Rule)
          → nat_eq y.id id ≡ true
          → y ≡ x
          → switched id (not (not x.active)) (switched id (not x.active) y) ≡ y
      twice y h same = ground arith

      back :
          (y : Rule)
          → (nat_eq y.id id ≡ true) ⊎ (nat_eq y.id id ≡ false)
          → Mem y xs
          → switched id (not (not x.active)) (switched id (not x.active) y) ≡ y
      back y (inl h) m =
          let (n, k) = first-some (has_id id) xs x e in twice y h (found_unique xs id u y x m n h k)
      back y (inr h) m = rw h (rw h refl)

  -- Where no two rows have one id and a rule has the given id, two toggle requests for it leave
  -- every rule as `get_by_id` found it.
  pub toggle_twice :
      (up up' : Bool) (id : ℕ) (w : World r t) (x : Rule) (j : ℕ)
      → UniqueIds (rows w)
      → get_by_id r t w id ≡ some x
      → get_by_id r t (toggle_rule r t up' id (toggle_rule r t up id w).1).1 j ≡ get_by_id r t w j
  unfolding get_by_id
  toggle_twice up up' id w x j u e =
      let w1 = (toggle_rule r t up id w).1 in
      let x' : Rule = record x { active = not x.active } in
      let same : nat_eq x.id id ≡ true = (first-some (has_id id) (rows w) x e).1 in
      let e1 : get_by_id r t w1 id ≡ some x' =
        get_by_id-toggle up id w x id u e
        ∙ ap (Option.map (switched id (not x.active))) e
        ∙ ap some (rw same refl) in
      get_by_id-toggle up' id w1 x' j (toggle-UniqueIds up id w u) e1
      ∙ ap (Option.map (switched id (not x'.active))) (get_by_id-toggle up id w x j u e)
      ∙ restored id x (rows w) j u e

  first-select :
      (i j : ℕ) (xs : List Rule)
      → first (has_id j) (select (λ y. not (nat_eq y.id i)) xs)
        ≡ (if nat_eq j i then none else first (has_id j) xs)
  first-select i j [] = ground arith
  first-select i j (x ∷ xs) = ground (arith, first-select i j xs)

  -- Where no two rows have one id and a rule has the given id, the delete request makes that
  -- rule missing for `get_by_id` and changes nothing that it finds for another id.
  pub get_by_id-delete :
      (up : Bool) (id : ℕ) (w : World r t) (x : Rule) (j : ℕ)
      → UniqueIds (rows w)
      → get_by_id r t w id ≡ some x
      → get_by_id r t (delete_rule r t up id w).1 j
        ≡ (if nat_eq j id then none else get_by_id r t w j)
  unfolding delete_rule delete get_by_id
  get_by_id-delete up id w x j u e =
      let same : x.id ≡ id = (nat_eq_iff x.id id).0 (first-some (has_id id) (rows w) x e).1 in
      let π = t.rows-delete w.db (λ y. nat_eq y.id x.id) in
      let u' = unique-select (λ y. not (nat_eq y.id x.id)) (rows w) _ π u in
      rw (e, delete_rule)
        (first-perm (has_id j) _ _ π (found_unique _ j u')
          ∙ first-select x.id j (rows w)
          ∙ ap (λ (i : ℕ). if nat_eq j i then none else get_by_id r t w j) same)

  -- Where no two rows have one id, a valid create request answers with a rule under an id that
  -- no rule had; `get_by_id` finds that rule, and for another id what it found before.
  pub get_by_id-create :
      (up : Bool) (now : ℕ) (body : RuleCreate) (w : World r t) (j : ℕ)
      → UniqueIds (rows w)
      → is_valid body ≡ true
      → (id : ℕ) × ((create_rule r t up now body w).0 ≡ done (new_rule body now id))
        × (get_by_id r t w id ≡ none)
        × (get_by_id r t (create_rule r t up now body w).1 j
            ≡ (if nat_eq id j then some (new_rule body now id) else get_by_id r t w j))
  unfolding create_rule create get_by_id
  get_by_id-create up now body w j u v =
      let make = new_rule body now in
      let id = (t.insert w.db make).0 in
      let fresh = t.fresh-insert w.db make in
      let π = t.rows-insert w.db make in
      (
        id,
        rw v refl,
        unused id (rows w) fresh,
        rw v (
            first-perm (has_id j) _ _ π
              (found_unique _ j (unique-insert (make id) (rows w) _ fresh π u))),
      )

  -- Where no two rows have one id and a rule has the given id, after the delete request for it
  -- a toggle and another delete request for it answer that it was not found and change nothing.
  pub deleted_rule :
      (up up' : Bool) (id : ℕ) (w : World r t) (x : Rule)
      → UniqueIds (rows w)
      → get_by_id r t w id ≡ some x
      → let w' = (delete_rule r t up id w).1 in
        (toggle_rule r t up' id w' ≡ (not_found, w'))
        × (delete_rule r t up' id w' ≡ (not_found, w'))
  unfolding toggle_rule delete_rule
  deleted_rule up up' id w x u e =
      let w' = (delete_rule r t up id w).1 in
      let gone : get_by_id r t w' id ≡ none =
        get_by_id-delete up id w x id u e ∙ rw ((nat_eq_iff id id).1 refl) refl in
      (rw (gone, toggle_rule) refl, rw (gone, delete_rule) refl)
