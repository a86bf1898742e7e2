-- ===== src/Monitor/Cooldown.antt =====
-- The mails of the monitor over time (`checkAndNotify`, internal/monitor/service.go).
use caddytower.Prelude.{
  ap, ℕ, ◌+◌, ◌*◌, ◌≤◌, ◌<◌, ◌≡◌, refl, sym, inl, inr, Bool, true, false, not, ◌&&◌, ◌==◌, ◌∙◌, ltb,
  List, [], ◌∷◌, All, All-mono, exists, exists_mono, is_empty, Bool-cases, or_true, arith,
  if◌then◌else◌, if_holds,
}
use caddytower.Prelude.Int.{pos}
use caddytower.Prelude.Decimal.{int_of}
use caddytower.Prelude.Results.{Result, value, error}
use caddytower.Prelude.Texts.{Text, text_eq, text_eq_iff, text_eq_refl}
use caddytower.Monitor.{
  MonitorError, Config, Status, Layout, Mail, Service, Tick, new, cooldown, in_cooldown, send,
  notify, notify_status, warning_key, mail_body, collect_status, check_and_notify,
}

-- The mails, the newest first: two of the same warnings are at least `wait` apart.
abbrev pub Spaced : ℕ → List Mail → Type 0
Spaced wait [] = Unit
Spaced wait (m ∷ ms) =
    All (λ n. n.key ≡ m.key → n.sent_at + wait ≤ m.checked_at) ms × Spaced wait ms

-- Every mail was sent after the zero time, and no later than `lastSent` says.
abbrev Recorded : (Text → ℕ) → Mail → Type 0
Recorded last m = (0 < m.sent_at) × (m.sent_at ≤ last m.key)

-- A mail of the warnings was recorded at the time.
abbrev is_mail : Text → ℕ → Mail → Bool
is_mail key at m = text_eq m.key key && m.sent_at == at

-- The cooldown is `wait`, and was kept so far.
abbrev pub Sound : ℕ → Service → Type 0
Sound wait s =
    (cooldown s.cfg ≡ pos wait)
    × Spaced wait s.delivered
    × All (Recorded s.last_sent) s.delivered
    × ((k : Text)
        → s.last_sent k == 0 ≡ false
        → exists (is_mail k (s.last_sent k)) s.delivered ≡ true)

-- The clock is past the zero time, and does not run backwards during a check.
abbrev pub Clocked : Tick → Type 0
Clocked t = (0 < t.check_at) × (t.check_at ≤ t.recorded_at)

-- The newest mail keeps its distance.
apart :
    (key : Text) (at wait : ℕ) (last : Text → ℕ) (m : Mail)
    → in_cooldown (last key) at (pos wait) ≡ false
    → Recorded last m
    → m.key ≡ key
    → m.sent_at + wait ≤ at
apart key at wait last m f r e =
    let late : m.sent_at ≤ last key = rw (sym e) r.1 in let early = r.0 in ground arith

-- The times of the other mails stay recorded.
still_known :
    (key : Text) (at now wait : ℕ) (last : Text → ℕ) (m : Mail)
    → in_cooldown (last key) at (pos wait) ≡ false
    → at ≤ now
    → Recorded last m
    → Recorded (λ k. if text_eq key k then now else last k) m
still_known key at now wait last m f c r = elim (Bool-cases (text_eq key m.key)) [
  | inl e ↦
      let same : m.key ≡ key = sym ((text_eq_iff key m.key).0 e) in
      let far = apart key at wait last m f r same in rw e (r.0, omega arith)
  | inr e ↦ rw e (r.0, r.1)
]

-- A mail of the warnings that is less than a cooldown old.
abbrev pub is_recent : Text → ℕ → ℕ → Mail → Bool
is_recent key at wait m = text_eq m.key key && ltb at (m.sent_at + wait)

-- A cooldown that fits 63 bits is what the configuration says.
cooldown_fits :
    (c : Config)
    → c.vps_warning_cooldown_minutes ≤ 153722867
    → cooldown c ≡ pos (c.vps_warning_cooldown_minutes * 60000000000)
unfolding cooldown int_of
cooldown_fits c h = ground arith

module _ (l : Layout) where
  -- The service after a sequence of checks.
  unfoldable pub run : Service → List Tick → Service
  unfolding check_and_notify
  run s [] = s
  run s (t ∷ ts) = run (check_and_notify l s t) ts

module _ (l : Layout) (wait : ℕ) where
  still_listed :
      (key : Text) (t : Tick) (s : Service) (m : Mail)
      → m.key ≡ key
      → m.sent_at ≡ t.recorded_at
      → ((k : Text)
          → s.last_sent k == 0 ≡ false
          → exists (is_mail k (s.last_sent k)) s.delivered ≡ true)
      → (k : Text) → (if text_eq key k then t.recorded_at else s.last_sent k) == 0 ≡ false
      → exists
          (is_mail k (if text_eq key k then t.recorded_at else s.last_sent k))
          (m ∷ s.delivered)
        ≡ true
  unfolding exists
  still_listed key t s m named timed listed k =
      if_holds (λ at. at == 0 ≡ false → exists (is_mail k at) (m ∷ s.delivered) ≡ true)
        (text_eq key k)
        (λ e filled.
          let same : text_eq m.key k ≡ true = rw (named, e) refl in rw (same, timed) (ground arith))
        (λ e filled. or_true _ _ (listed k filled))

  notify-Sound :
      (s : Service) (t : Tick) (key body : Text)
      → Clocked t
      → Sound wait s
      → Sound wait (notify l s t key body)
  unfolding notify
  notify-Sound s t key body c h =
      elim (Bool-cases (in_cooldown (s.last_sent key) t.check_at (cooldown s.cfg))) [
        | inl e ↦ rw e h
        | inr e ↦ rw e (
            let f = sym (ap (in_cooldown (s.last_sent key) t.check_at) h.0) ∙ e in
            elim (Bool-cases (send s.cfg t)) [
              | inr refused ↦ rw refused h
              | inl sent ↦ rw sent (
                h.0,
                (
                  All-mono s.delivered (λ m r. apart key t.check_at wait s.last_sent m f r) h.2,
                  h.1,
                ),
                (
                  (omega arith, rw (text_eq_refl key) (omega arith)),
                  All-mono s.delivered
                      (λ m r. still_known key t.check_at t.recorded_at wait s.last_sent m f c.1 r)
                      h.2,
                ),
                still_listed key t s
                    (record {
                      key = key;
                      checked_at = t.check_at;
                      sent_at = t.recorded_at;
                      body = body;
                    })
                    refl refl h.3,
              )
            ])
      ]

  notify_status-Sound :
      (s : Service) (t : Tick) (r : Result MonitorError Status)
      → Clocked t
      → Sound wait s
      → Sound wait (notify_status l s t r)
  notify_status-Sound s t (error e) c h = h
  notify_status-Sound s t (value status) c h =
      if_holds (Sound wait) (is_empty status.warnings) (λ _. h)
        (λ _.
          if_holds (Sound wait) (not status.email_configured) (λ _. h)
            (λ _. notify-Sound s t (warning_key status) (mail_body l status) c h))

  run-Sound :
      (ts : List Tick) (s : Service) → All Clocked ts → Sound wait s → Sound wait (run l s ts)
  unfolding run check_and_notify
  run-Sound [] s c h = h
  run-Sound (t ∷ ts) s c h =
      run-Sound ts (check_and_notify l s t) c.1
        (notify_status-Sound s t (collect_status s.cfg t.machine t.snapshot_at) c.0 h)

  notify-cfg : (s : Service) (t : Tick) (key body : Text) → (notify l s t key body).cfg ≡ s.cfg
  unfolding notify
  notify-cfg s t key body = ground arith

  notify_status-cfg :
      (s : Service) (t : Tick) (r : Result MonitorError Status)
      → (notify_status l s t r).cfg ≡ s.cfg
  notify_status-cfg s t (error e) = refl
  notify_status-cfg s t (value status) =
      if_holds (λ (u : Service). u.cfg ≡ s.cfg) (is_empty status.warnings) (λ _. refl)
        (λ _.
          if_holds (λ (u : Service). u.cfg ≡ s.cfg) (not status.email_configured) (λ _. refl)
            (λ _. notify-cfg s t (warning_key status) (mail_body l status)))

  run-cfg : (ts : List Tick) (s : Service) → (run l s ts).cfg ≡ s.cfg
  unfolding run check_and_notify
  run-cfg [] s = refl
  run-cfg (t ∷ ts) s =
      run-cfg ts (check_and_notify l s t)
      ∙ notify_status-cfg s t (collect_status s.cfg t.machine t.snapshot_at)

  new-Sound : (c : Config) → cooldown c ≡ pos wait → Sound wait (new c)
  unfolding new
  new-Sound c waits = (waits, tt, tt, λ k filled. absurd cc)

  notify-recent :
      (s : Service) (t : Tick) (key body : Text)
      → Clocked t
      → Sound wait s
      → send s.cfg t ≡ true
      → 0 < wait
      → exists (is_recent key t.check_at wait) (notify l s t key body).delivered ≡ true
  unfolding notify exists
  notify-recent s t key body c h sent waits =
      if_holds (λ (u : Service). exists (is_recent key t.check_at wait) u.delivered ≡ true)
        (in_cooldown (s.last_sent key) t.check_at (cooldown s.cfg))
        (λ e.
          exists_mono (is_mail key (s.last_sent key)) (is_recent key t.check_at wait) s.delivered
            (λ m k.
              let f = sym (ap (in_cooldown (s.last_sent key) t.check_at) h.0) ∙ e in ground arith)
            (h.3 key (
              let f = sym (ap (in_cooldown (s.last_sent key) t.check_at) h.0) ∙ e in ground arith)))
        (λ e. rw (sent, text_eq_refl key) (ground arith))

  check-recent :
      (s : Service) (t : Tick) (status : Status)
      → Clocked t
      → Sound wait s
      → collect_status s.cfg t.machine t.snapshot_at ≡ value status
      → is_empty status.warnings ≡ false
      → status.email_configured ≡ true
      → send s.cfg t ≡ true
      → 0 < wait
      → exists (is_recent (warning_key status) t.check_at wait) (check_and_notify l s t).delivered
        ≡ true
  unfolding check_and_notify
  check-recent s t status h sound collected warned configured sent waits =
      rw (collected, warned, configured)
        (notify-recent s t (warning_key status) (mail_body l status) h sound sent waits)

  -- After any number of checks of a new service, a check that finds warnings, with mail configured and
  -- an SMTP server that takes it, leaves a delivered mail of these warnings that is less than a
  -- cooldown old: no warning goes unreported for longer, where the clock does not run backwards during
  -- a check and the cooldown, in 64 bits with a sign, is positive.
  pub warnings_are_mailed :
      (c : Config) (ts : List Tick) (t : Tick) (status : Status)
      → All Clocked ts
      → Clocked t
      → collect_status c t.machine t.snapshot_at ≡ value status
      → is_empty status.warnings ≡ false
      → status.email_configured ≡ true
      → send c t ≡ true
      → cooldown c ≡ pos wait
      → 0 < wait
      → exists
          (is_recent (warning_key status) t.check_at wait)
          (check_and_notify l (run l (new c) ts) t).delivered
        ≡ true
  unfolding new
  warnings_are_mailed c ts t status hs h collected warned configured sent waits some_wait =
      let e = run-cfg ts (new c) in
      check-recent (run l (new c) ts) t status h (run-Sound ts (new c) hs (new-Sound c waits))
        (rw e collected) warned configured (rw e sent) some_wait

module _ (l : Layout) where
  -- However many checks a new service makes and whatever they find, two mails of the same warnings are
  -- at least a cooldown apart: from the time that the earlier one was recorded to the time at which the
  -- later one was decided, where the clock does not run backwards during a check and the cooldown is
  -- at most 153722867 minutes, which fits the 63 bits of a duration.
  pub mails-Spaced :
      (c : Config) (ts : List Tick)
      → c.vps_warning_cooldown_minutes ≤ 153722867
      → All Clocked ts
      → Spaced (c.vps_warning_cooldown_minutes * 60000000000) (run l (new c) ts).delivered
  unfolding new
  mails-Spaced c ts fits h =
      let wait = c.vps_warning_cooldown_minutes * 60000000000 in
      (run-Sound l wait ts (new c) h (new-Sound l wait c (cooldown_fits c fits))).1
