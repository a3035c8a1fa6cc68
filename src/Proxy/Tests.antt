-- ===== src/Proxy/Tests.antt =====
-- The headers of a concrete request (app/models/services/proxy.py).
use rate_guardian.Base.{◌≡◌, refl, none, [], ◌∷◌}
use rate_guardian.Proxy.{is_hop_by_hop, put, collect, Request, forward}

abbrev request : Request
request = record {
  method = "GET";
  path = "/proxy/https://api.example.com";
  headers =
      ("Host", "localhost:8002")
      ∷ ("accept", "text/html")
      ∷ ("x-tag", "a")
      ∷ ("Keep-Alive", "5")
      ∷ ("x-tag", "b")
      ∷ [];
  body = [];
  client = none;
}

test_headers :
    forward (λ method url headers body. headers) request "https://api.example.com"
    ≡ ("accept", "text/html") ∷ ("x-tag", "b") ∷ []
unfolding forward collect put is_hop_by_hop
test_headers = refl
