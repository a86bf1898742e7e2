-- ===== src/RateLimit/Tests.antt =====
-- Runs of the webhook limiter (internal/server/middleware.go).
use caddytower.Prelude.{◌+◌, ◌≤◌, ◌≡◌, refl, true, some, [], ◌∷◌, List, arith}
use caddytower.Prelude.Texts.{Text, codes, text_eq}
use caddytower.RateLimit.{Limiter, new_webhook_rate_limiter, allow, decide, first_request}
use caddytower.RateLimit.Window.{allow-decide, granted-le, granted, Request}

abbrev client : Text
client = codes "10.0.0.1"

abbrev other : Text
other = codes "10.0.0.2"

-- A limiter of two requests in 60 units of time, after the client's first request at time 100.
abbrev opened : Limiter
opened = record { limit = 2; window = 60; entries = λ k. some (first_request 100) }

abbrev requests : List Request
requests = (client, 110) ∷ (other, 115) ∷ (client, 120) ∷ (client, 159) ∷ []

first_allowed : (allow (new_webhook_rate_limiter 2 60) client 100).1 ≡ true
unfolding allow new_webhook_rate_limiter
first_allowed = refl

granted_one : granted client opened requests ≡ 1
unfolding granted allow text_eq
granted_one = refl

allow-decide_example : (allow opened client 200).1 ≡ (decide 2 60 200 (some (first_request 100))).1
allow-decide_example = allow-decide opened client 200 (omega arith)

granted-le_example : 1 + granted client opened requests ≤ 2
granted-le_example =
    granted-le client 100 1 2 60 opened requests refl refl (omega arith) (omega arith)
      (first_request 100, refl, refl, refl, omega arith)
