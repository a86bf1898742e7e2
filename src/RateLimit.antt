-- ===== src/RateLimit.antt =====
-- internal/server/middleware.go: the limiter of webhook requests, a counter for each client in a
-- window that opens with the client's first request. A Go map is a function; times are nanoseconds.
pub mod Window
mod Tests
use caddytower.Prelude.{ℕ, ◌+◌, ◌-◌, Bool, true, false, Option, none, some, ltb, leb, if◌then◌else◌}
use caddytower.Prelude.Texts.{Text, text_eq}

pub record RateLimitEntry : Type 0 where
  pub count : ℕ
  pub started : ℕ
  pub last_seen : ℕ

pub record Limiter : Type 0 where
  pub limit : ℕ
  pub window : ℕ
  pub entries : Text → Option RateLimitEntry

unfoldable pub new_webhook_rate_limiter : ℕ → ℕ → Limiter
new_webhook_rate_limiter limit window = record {
  limit = limit;
  window = window;
  entries = λ _. none;
}

-- The loop that deletes the entries not seen for a whole window.
unfoldable pub fresh_only : ℕ → ℕ → Option RateLimitEntry → Option RateLimitEntry
fresh_only window now none = none
fresh_only window now (some e) = if ltb window (now - e.last_seen) then none else some e

abbrev pub store_entry : Limiter → Text → RateLimitEntry → Limiter
store_entry l key e = record l { entries = λ k. if text_eq key k then some e else l.entries k }

abbrev pub first_request : ℕ → RateLimitEntry
first_request now = record { count = 1; started = now; last_seen = now }

-- What `Allow` does with the entry that it finds: the entry to store, and its answer.
unfoldable pub decide : ℕ → ℕ → ℕ → Option RateLimitEntry → RateLimitEntry × Bool
decide limit window now none = (first_request now, true)
decide limit window now (some e) =
    if leb window (now - e.started)
    then (first_request now, true)
    else if leb limit e.count
    then (record e { last_seen = now }, false)
    else (record e { count = e.count + 1; last_seen = now }, true)

unfoldable pub allow : Limiter → Text → ℕ → Limiter × Bool
unfolding fresh_only decide
allow l key now =
    let kept = record l { entries = λ k. fresh_only l.window now (l.entries k) } in
    let d = decide l.limit l.window now (kept.entries key) in (store_entry kept key d.0, d.1)
