-- ===== src/EventManager/Tests.antt =====
-- The event manager of app/core/event_manager.py on a concrete event.
use rate_guardian.Base.{refl, ℕ, suc, ◌≡◌, true, false, [], ◌∷◌}
use rate_guardian.EventManager.{
  request_blocked, Event, blocked, Handler, EventManager, subscribe, emit, call_all,
}

-- A handler that counts its calls, and one that raises.
abbrev count_call : Handler ℕ
count_call e n = (suc n, false)

abbrev raise_error : Handler ℕ
raise_error e n = (n, true)

abbrev manager : EventManager ℕ
manager = record { handlers = λ kind. count_call ∷ raise_error ∷ [] }

abbrev rejection : Event
rejection = blocked (record {
  client_ip = "10.0.0.7";
  method = "GET";
  path = "/proxy/https://api.example.com/users";
  upstream = "api.example.com";
  status_code = 429;
  latency_ms = 3;
  reason = "rate_limit";
})

test_emit : emit (subscribe manager request_blocked count_call) rejection 0 ≡ (1, true)
unfolding emit subscribe call_all
test_emit = refl
