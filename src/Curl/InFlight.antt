-- ===== src/Curl/InFlight.antt =====
-- Which requests are registered, and what `cancel` hits.
use stv_renew.Prelude.{◌≡◌, ℕ, String, List, [], ◌∷◌, Option, none, some, is_empty, if◌then◌else◌}
use stv_renew.Http.{HttpRequest}
use stv_renew.Curl.{CurlClient}

-- What is registered while a request is performed, and while none is.
abbrev pub registered : Option (HttpRequest × ℕ) → List (String × ℕ)
registered none = []
registered (some (request, token)) =
    if is_empty request.request_id then [] else (request.request_id, token) ∷ []

abbrev pub Registered : CurlClient → Type 0
Registered c = c.in_flight ≡ registered c.performing
