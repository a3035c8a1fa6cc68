-- ===== src/EventManager.antt =====
-- app/core/event_manager.py: `EventManager`, over the events of app/core/events.py.
--
-- A handler works on a state of its own kind and may raise; what it did before stays done. The
-- dictionary of handlers is a function from the two event types.
mod Tests
use mathlib.Core.List.{append-nil}
use rate_guardian.Base.{
  ℕ, ◌≡◌, refl, Bool, true, false, List, [], ◌∷◌, ◌++◌, Bool-cases, inl, inr, arith, if◌then◌else◌,
}
use rate_guardian.Models.{RequestBlocked, RequestForwarded}

pub data EventType : Type 0 where
  request_blocked request_forwarded : EventType

pub data Event : Type 0 where
  blocked : RequestBlocked → Event
  forwarded : RequestForwarded → Event

-- `type(event)`
abbrev pub type_of : Event → EventType
type_of (blocked b) = request_blocked
type_of (forwarded f) = request_forwarded

abbrev pub same_type : EventType → EventType → Bool
same_type request_blocked request_blocked = true
same_type request_forwarded request_forwarded = true
same_type _ _ = false

-- The state after the call, and whether it raised.
abbrev pub Handler : Type 0 → Type 0
Handler S = Event → S → S × Bool

pub record EventManager (S : Type 0) : Type 0 where
  pub handlers : EventType → List (Handler S)

module _ {S : Type 0} where
  unfoldable pub subscribe : EventManager S → EventType → Handler S → EventManager S
  subscribe m kind handler = record {
    handlers = λ k. if same_type kind k then m.handlers k ++ handler ∷ [] else m.handlers k;
  }

  -- An exception ends the loop.
  unfoldable pub call_all : List (Handler S) → Event → S → S × Bool
  call_all [] e s = (s, false)
  call_all (h ∷ hs) e s =
      let (s', raised) = h e s in let rest = call_all hs e s' in if raised then (s', true) else rest

  unfoldable pub emit : EventManager S → Event → S → S × Bool
  unfolding call_all
  emit m e s = call_all (m.handlers (type_of e)) e s

  abbrev pub then_call : Handler S → Event → S × Bool → S × Bool
  then_call h e (s, raised) = if raised then (s, true) else h e s

  whole :
      (s : S) (raised : Bool)
      → ◌≡◌ {A = S × Bool} (if raised then (s, true) else (s, false)) (s, raised)
  whole s true = refl
  whole s false = refl

  call_all-snoc :
      (hs : List (Handler S)) (h : Handler S) (e : Event) (s : S)
      → call_all (hs ++ h ∷ []) e s ≡ then_call h e (call_all hs e s)
  unfolding call_all
  call_all-snoc [] h e s = whole (h e s).0 (h e s).1
  call_all-snoc (g ∷ hs) h e s = elim (Bool-cases (g e s).1) [
    | inl y ↦ rw y refl
    | inr n ↦ rw n (call_all-snoc hs h e (g e s).0)
  ]

  -- After a handler is subscribed to an event type, an event of that type calls the handlers
  -- before it and then the handler, unless one of those raised; an event of the other type
  -- calls what it called before.
  pub emit-subscribe :
      (m : EventManager S) (kind : EventType) (h : Handler S) (e : Event) (s : S)
      → emit (subscribe m kind h) e s
        ≡ (if same_type kind (type_of e) then then_call h e (emit m e s) else emit m e s)
  unfolding emit subscribe
  emit-subscribe m kind h e s = elim (Bool-cases (same_type kind (type_of e))) [
    | inl y ↦ rw y (call_all-snoc (m.handlers (type_of e)) h e s)
    | inr n ↦ rw n refl
  ]
