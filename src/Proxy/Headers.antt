-- ===== src/Proxy/Headers.antt =====
-- Which header the upstream gets for a name (app/models/services/proxy.py).
use rate_guardian.Base.{
  ◌≡◌, ◌⊎◌, refl, sym, ◌∙◌, String, Bool, true, false, Option, none, some, List, [], ◌∷◌,
  Bool-cases, inl, inr, arith, eq_iff, ◌==◌, if◌then◌else◌,
}
use rate_guardian.Proxy.{is_hop_by_hop, put, collect, Request, forward}

-- The value of the first entry, and of the last, with a name.
abbrev pub lookup : String → List (String × String) → Option String
lookup k [] = none
lookup k ((k', v) ∷ d) = if k' == k then some v else lookup k d

abbrev pub or_else {ℓ} : {A : Type ℓ} → Option A → Option A → Option A
or_else none y = y
or_else (some x) y = some x

abbrev pub last_value : String → List (String × String) → Option String
last_value k [] = none
last_value k ((k', v) ∷ d) =
    let rest = last_value k d in or_else rest (if k' == k then some v else none)

lookup-put :
    (d : List (String × String)) (k j v : String)
    → lookup j (put d k v) ≡ (if k == j then some v else lookup j d)
unfolding put
lookup-put [] k j v = refl
lookup-put ((k', v') ∷ d) k j v = elim (Bool-cases (k' == k)) [
  | inl e ↦ let same = (eq_iff k' k).0 e in rw e (rw same (ground arith))
  | inr e ↦ rw e (other (Bool-cases (k' == j)) (lookup-put d k j v) e)
]
  where
    other :
        (k' == j ≡ true) ⊎ (k' == j ≡ false)
        → lookup j (put d k v) ≡ (if k == j then some v else lookup j d)
        → k' == k ≡ false
        → lookup j ((k', v') ∷ put d k v) ≡ (if k == j then some v else lookup j ((k', v') ∷ d))
    other (inl h) ih e = elim (Bool-cases (k == j)) [
      | inl y ↦ let same : k' == k ≡ true = rw ((eq_iff k j).0 y) h in cc (sym e ∙ same)
      | inr n ↦ rw (h, n) refl
    ]
    other (inr h) ih e = rw h ih

or_else_assoc {ℓ} :
    {A : Type ℓ} (a b c : Option A) → or_else (or_else a b) c ≡ or_else a (or_else b c)
or_else_assoc none b c = refl
or_else_assoc (some x) b c = refl

or_else-none {ℓ} : {A : Type ℓ} (a : Option A) → or_else a none ≡ a
or_else-none none = refl
or_else-none (some x) = refl

hop-same : (k j : String) (b : Bool) → is_hop_by_hop k ≡ b → k == j ≡ true → is_hop_by_hop j ≡ b
hop-same k j b h e = rw (← (eq_iff k j).0 e) h

lookup-collect :
    (d items : List (String × String)) (j : String)
    → lookup j (collect d items)
      ≡ (if is_hop_by_hop j then lookup j d else or_else (last_value j items) (lookup j d))
unfolding collect
lookup-collect d [] j = ground arith
lookup-collect d ((k, v) ∷ items) j = elim (Bool-cases (is_hop_by_hop k)) [
  | inl y ↦ rw y (
      lookup-collect d items j ∙ elim (Bool-cases (k == j)) [
        | inl e ↦ rw (hop-same k j true y e) refl
        | inr e ↦ rw e (rw or_else-none refl)
      ])
  | inr n ↦ rw n (
      lookup-collect (put d k v) items j
      ∙ rw lookup-put (elim (Bool-cases (k == j)) [
        | inl e ↦
            rw (e, hop-same k j false n e)
              (sym (or_else_assoc (last_value j items) (some v) (lookup j d)))
        | inr e ↦ rw e (rw or_else-none refl)
      ]))
]

-- Of the headers of a request, the upstream gets none under a name that is hop-by-hop in lower
-- case, and under any other name the last value that the request has for it.
pub lookup-forward :
    (request : Request) (upstream_url j : String)
    → lookup j (forward (λ method url headers body. headers) request upstream_url)
      ≡ (if is_hop_by_hop j then none else last_value j request.headers)
unfolding forward
lookup-forward request upstream_url j = lookup-collect [] request.headers j ∙ rw or_else-none refl
