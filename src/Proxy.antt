-- ===== src/Proxy.antt =====
-- app/models/services/proxy.py: the headers that `HttpxProxyService` passes on.
--
-- Names of headers are Latin-1 texts, on which `lower` acts as below. The client is httpx: what it
-- returns or raises for a method, a URL, headers and a body is the argument `send`.
pub mod Headers
mod Tests
use rate_guardian.Base.{
  ℕ, ◌+◌, String, Bool, true, false, not, ◌&&◌, ◌||◌, Option, none, some, List, [], ◌∷◌, map, leb,
  nat_eq, ◌==◌, if◌then◌else◌,
}
use rate_guardian.Fnmatch.{codes}

-- `lower` of a Latin-1 character.
abbrev pub lower : ℕ → ℕ
lower c = if leb 65 c && leb c 90 || leb 192 c && leb c 222 && not (nat_eq c 215) then c + 32 else c

abbrev pub same_codes : List ℕ → List ℕ → Bool
same_codes [] [] = true
same_codes (a ∷ xs) (b ∷ ys) = nat_eq a b && same_codes xs ys
same_codes _ _ = false

abbrev pub one_of : List ℕ → List String → Bool
one_of name [] = false
one_of name (h ∷ hs) = same_codes name (codes h) || one_of name hs

abbrev pub hop_by_hop : List String
hop_by_hop =
    "host" ∷ "connection" ∷ "transfer-encoding" ∷ "te" ∷ "trailer" ∷ "upgrade" ∷ "keep-alive"
    ∷ "proxy-authorization" ∷ "proxy-authenticate" ∷ []

-- `k.lower() in _HOP_BY_HOP`
unfoldable pub is_hop_by_hop : String → Bool
is_hop_by_hop k = one_of (map lower (codes k)) hop_by_hop

-- An assignment to a key of a dictionary, which keeps the place of a key that it has.
unfoldable pub put : List (String × String) → String → String → List (String × String)
put [] k v = (k, v) ∷ []
put ((k', v') ∷ d) k v = let rest = put d k v in if k' == k then (k, v) ∷ d else (k', v') ∷ rest

-- The dictionary comprehension, from the entries it has so far.
unfoldable pub collect : List (String × String) → List (String × String) → List (String × String)
collect d [] = d
collect d ((k, v) ∷ items) = collect (if is_hop_by_hop k then d else put d k v) items

-- What is read of a request: `client` is the address of the peer, which is missing where
-- `request.client` is `None`. The names of its headers are in lower case.
pub record Request : Type 0 where
  pub method : String
  pub path : String
  pub headers : List (String × String)
  pub body : List ℕ
  pub client : Option String

-- What the client is asked to send.
pub record Sent : Type 0 where
  pub method : String
  pub url : String
  pub headers : List (String × String)
  pub body : List ℕ

abbrev pub sent_of : String → String → List (String × String) → List ℕ → Sent
sent_of method url headers body = record {
  method = method;
  url = url;
  headers = headers;
  body = body;
}

-- `headers.get`: the first value under a name.
unfoldable pub get_header : String → List (String × String) → Option String
get_header name [] = none
get_header name ((k, v) ∷ headers) = if k == name then some v else get_header name headers

unfoldable pub forward :
    {A : Type 0} → (String → String → List (String × String) → List ℕ → A) → Request → String → A
unfolding collect
forward send request upstream_url =
    send request.method upstream_url (collect [] request.headers) request.body
