-- ===== src/RateLimit/Window.antt =====
-- How many requests a window lets through (internal/server/middleware.go).
use caddytower.Prelude.{
  ℕ, suc, ◌+◌, ◌-◌, ◌≤◌, ◌<◌, ◌≡◌, refl, sym, ◌∙◌, Bool, true, false, Option, none, some, List, [],
  ◌∷◌, arith, if◌then◌else◌, leb, Bool-cases, inl, inr, Option-cases,
}
use mathlib.Core.Path.{subst₂}
use caddytower.Prelude.Texts.{Text, text_eq, text_eq_refl, text_eq_iff}
use caddytower.RateLimit.{Limiter, RateLimitEntry, fresh_only, decide, allow}

-- An entry is seen at its start or later.
abbrev pub IsOrderly : Option RateLimitEntry → Type 0
IsOrderly none = Unit
IsOrderly (some e) = e.started ≤ e.last_seen

-- The answer to a request is the one that its client's stored entry gives, whether or not the loop
-- before it has deleted that entry, as long as the entry was seen at its start or later.
pub allow-decide :
    (l : Limiter) (key : Text) (now : ℕ)
    → IsOrderly (l.entries key)
    → (allow l key now).1 ≡ (decide l.limit l.window now (l.entries key)).1
unfolding allow
allow-decide l key now h = elim (Option-cases (l.entries key)) [
  | inl e ↦ rw (e, fresh_only, decide) refl
  | inr (x, e) ↦ ground (arith, e)
]

-- Requests of several clients in the order in which the limiter's lock serves them.
abbrev pub Request : Type 0
Request = Text × ℕ

unfoldable pub serve : Limiter → List Request → Limiter
serve l [] = l
serve l ((k, now) ∷ rs) = serve (allow l k now).0 rs

-- How many requests of `key` are let through.
unfoldable pub granted : Text → Limiter → List Request → ℕ
granted key l [] = 0
granted key l ((k, now) ∷ rs) =
    let r = allow l k now in
    let rest = granted key r.0 rs in
    if text_eq k key then (if r.1 then suc rest else rest) else rest

-- All requests fall in the window that opened at `start`.
abbrev pub InWindow : ℕ → ℕ → List Request → Type 0
InWindow start window [] = Unit
InWindow start window ((k, now) ∷ rs) =
    (start ≤ now) × (now < start + window) × InWindow start window rs

-- The entry of `key` stands for a window that opened at `start` with `n` requests let through.
abbrev pub Opened : Text → ℕ → ℕ → Limiter → Type 0
Opened key start n l =
    (e : RateLimitEntry) × (l.entries key ≡ some e)
    × (e.started ≡ start)
    × (e.count ≡ n)
    × (start ≤ e.last_seen)

fresh_only-opened :
    (window now start : ℕ) (e : RateLimitEntry)
    → now < start + window
    → start ≤ e.last_seen
    → fresh_only window now (some e) ≡ some e
unfolding fresh_only
fresh_only-opened window now start e h seen = ground arith

-- A request of another client leaves the window as it is.
allow-other :
    (key k : Text) {start n : ℕ} (l : Limiter) (now : ℕ)
    → text_eq k key ≡ false
    → now < start + l.window
    → Opened key start n l
    → Opened key start n (allow l k now).0
unfolding allow
allow-other key k {start} l now other h (e, look, es, ec, seen) =
    (e, rw (other, look) (fresh_only-opened l.window now start e h seen), es, ec, seen)

-- A request of the client itself: refused, or counted while there is room.
abbrev Answered : Text → ℕ → ℕ → ℕ → Limiter × Bool → Type 0
Answered key start n limit (l, true) = (n < limit) × Opened key start (suc n) l
Answered key start n limit (l, false) = Opened key start n l

allow_self :
    (key : Text) {start n : ℕ} (l : Limiter) (now : ℕ)
    → start ≤ now
    → now < start + l.window
    → Opened key start n l
    → Answered key start n l.limit (allow l key now)
unfolding allow
allow_self key {start} {n} l now h1 h2 (e, look, es, ec, seen) =
    let live : leb l.window (now - e.started) ≡ false = ground arith in
    elim (Bool-cases (leb l.limit e.count)) [
      | inl full ↦
          rw (look, fresh_only-opened l.window now start e h2 seen, decide, live, full)
            (record e { last_seen = now }, rw text_eq_refl, es, ec, h1)
      | inr room ↦
          rw (look, fresh_only-opened l.window now start e h2 seen, decide, live, room)
            (
              ground arith,
              (
                record e { count = e.count + 1; last_seen = now },
                rw text_eq_refl,
                es,
                omega arith,
                h1,
              ),
            )
    ]

allow-limits :
    (l : Limiter) (k : Text) (now : ℕ)
    → ((allow l k now).0.limit ≡ l.limit) × ((allow l k now).0.window ≡ l.window)
unfolding allow
allow-limits l k now = (refl, refl)

Answered-le :
    (key : Text) (start n limit g : ℕ) (r : Limiter × Bool)
    → n ≤ limit
    → Answered key start n limit r
    → ((m : ℕ) → m ≤ limit → Opened key start m r.0 → m + g ≤ limit)
    → n + (if r.1 then suc g else g) ≤ limit
Answered-le key start n limit g (l, true) h (room, o) rest = omega (arith, rest (suc n) room o)
Answered-le key start n limit g (l, false) h o rest = rest n h o

-- A window that has let `n` requests of a client through since it opened at `start` lets at most
-- `limit - n` more through before `start + window`, in any interleaving with the requests of other
-- clients.
pub granted-le :
    (key : Text) (start n limit window : ℕ) (l : Limiter) (rs : List Request)
    → l.limit ≡ limit
    → l.window ≡ window
    → n ≤ limit
    → InWindow start window rs
    → Opened key start n l
    → n + granted key l rs ≤ limit
unfolding granted
granted-le key start n limit window l [] el ew h w o = omega arith
granted-le key start n limit window l ((k, now) ∷ rs) el ew h w o =
    let (sl, sw) = allow-limits l k now in
    let rest = λ (m : ℕ) (b : m ≤ limit) (q : Opened key start m (allow l k now).0).
      granted-le key start m limit window (allow l k now).0 rs (sl ∙ el) (sw ∙ ew) b w.2 q in
    elim (Bool-cases (text_eq k key)) [
      | inl same ↦ rw same (
          Answered-le key start n limit _ (allow l k now) h
            (subst₂ (λ x m. Answered key start n m (allow l x now))
              (sym ((text_eq_iff k key).0 same)) el (allow_self key l now w.0 (rw ew w.1) o))
            rest)
      | inr other ↦ rw other (rest n h (allow-other key k l now other (rw ew w.1) o))
    ]
