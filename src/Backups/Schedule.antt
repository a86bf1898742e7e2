-- ===== src/Backups/Schedule.antt =====
-- The schedule of the backups (internal/backups/service.go), as the configuration gives it.
use caddytower.Prelude.{
  ℕ, ◌+◌, ◌*◌, ◌-◌, ◌%◌, ◌≤◌, ◌<◌, ◌≡◌, refl, ap, ◌∙◌, inl, inr, false, not, ltb, Option, none,
  some, List, [], ◌∷◌, Bool-cases, if◌then◌else◌, arith,
}
use caddytower.Prelude.Int.{ℤ, pos, negsuc}
use caddytower.Prelude.Decimal.{atoi}
use caddytower.Prelude.Results.{value}
use caddytower.Prelude.Texts.{Text, split, trim_space}
use caddytower.Config.{Config, Net, Lookup, load_from_lookup}
use caddytower.Config.Accepted.{IsClock, load_from_lookup-IsValid}
use caddytower.Backups.{
  day, up_to, clock_of, parts_clock, scheduled_clock_parts, next_scheduled_run_at,
}

abbrev pub InDay : ℕ × ℕ → Type 0
InDay clock = (clock.0 ≤ 23) × (clock.1 ≤ 59)

-- A number that is read and in range, or nothing.
abbrev IsUpTo : ℕ → Option ℕ → Type 0
IsUpTo high none = Unit
IsUpTo high (some n) = n ≤ high

up_to-IsUpTo : (high : ℕ) (o : Option ℤ) → IsUpTo high (up_to high o)
up_to-IsUpTo high none = tt
up_to-IsUpTo high (some (negsuc n)) = tt
up_to-IsUpTo high (some (pos n)) = elim (Bool-cases (ltb high n)) [
  | inl e ↦ rw e tt
  | inr e ↦ rw e (ground arith)
]

clock_of-InDay : (h m : Option ℕ) → IsUpTo 23 h → IsUpTo 59 m → InDay (clock_of h m)
clock_of-InDay none m p q = (omega arith, omega arith)
clock_of-InDay (some h) none p q = (omega arith, omega arith)
clock_of-InDay (some h) (some m) p q = (p, q)

parts_clock-InDay : (parts : List Text) → InDay (parts_clock parts)
parts_clock-InDay [] = (omega arith, omega arith)
parts_clock-InDay (a ∷ []) = (omega arith, omega arith)
parts_clock-InDay (a ∷ b ∷ c ∷ d) = (omega arith, omega arith)
parts_clock-InDay (a ∷ b ∷ []) =
    clock_of-InDay (up_to 23 (atoi a)) (up_to 59 (atoi b)) (up_to-IsUpTo 23 (atoi a))
      (up_to-IsUpTo 59 (atoi b))

next_at-bounds :
    (now a b n : ℕ)
    → a ≤ 23
    → b ≤ 59
    → n ≡ (now - now % day) + (a * 60 + b) * 60000000000
    → (now < (if not (ltb now n) then n + day else n))
      × ((if not (ltb now n) then n + day else n) ≤ now + day)
      × ((if not (ltb now n) then n + day else n) % day ≡ (a * 60 + b) * 60000000000)
next_at-bounds now a b n p q e = elim (Bool-cases (ltb now n)) [
  | inl k ↦ rw k (ground arith, omega arith, omega arith)
  | inr k ↦ rw k (omega arith, ground arith, omega arith)
]

clock-scheduled : (raw : Text) (k : IsClock raw) → scheduled_clock_parts raw ≡ (k.3.0, k.4.0)
unfolding scheduled_clock_parts
clock-scheduled raw k = ap parts_clock k.2 ∙ rw (k.3.1, k.4.1) (in_range k.3.0 k.4.0 k.3.2 k.4.2)
  where
    in_range :
        (h m : ℕ)
        → h ≤ 23
        → m ≤ 59
        → clock_of (up_to 23 (some (pos h))) (up_to 59 (some (pos m))) ≡ (h, m)
    in_range h m p q =
        let hour : ltb 23 h ≡ false = ground arith in
        let minute : ltb 59 m ≡ false = ground arith in rw (hour, minute) refl

-- Whatever the schedule says, the next backup is after now and at most a day away, and it is at the
-- hour and the minute that the schedule is read as, which are those of a day.
pub next_scheduled_run_at-InDay :
    (now : ℕ) (raw : Text)
    → InDay (scheduled_clock_parts raw)
      × (now < next_scheduled_run_at now raw)
      × (next_scheduled_run_at now raw ≤ now + day)
      × (next_scheduled_run_at now raw % day
          ≡ ((scheduled_clock_parts raw).0 * 60 + (scheduled_clock_parts raw).1) * 60000000000)
unfolding next_scheduled_run_at scheduled_clock_parts
next_scheduled_run_at-InDay now raw =
    let clock = parts_clock-InDay (split b':' (trim_space raw)) in
    let c = parts_clock (split b':' (trim_space raw)) in
    let near = next_at-bounds now c.0 c.1 _ clock.0 clock.1 refl in (clock, near.0, near.1, near.2)

-- The schedule of a configuration that is loaded is the one that backups run on: its two parts are read
-- as an hour and a minute of a day, and the default is not taken in their place.
pub load_from_lookup-scheduled :
    (net : Net) (lookup : Lookup) (c : Config)
    → load_from_lookup net lookup ≡ value c
    → (hour : Text) × (minute : Text) × (split b':' (trim_space c.backups_schedule_utc)
        ≡ hour ∷ minute ∷ [])
      × (atoi hour ≡ some (pos (scheduled_clock_parts c.backups_schedule_utc).0))
      × (atoi minute ≡ some (pos (scheduled_clock_parts c.backups_schedule_utc).1))
load_from_lookup-scheduled net lookup c h =
    let k = (load_from_lookup-IsValid net lookup c h).schedule in
    let e = clock-scheduled c.backups_schedule_utc k in (k.0, k.1, k.2, rw e k.3.1, rw e k.4.1)
