-- ===== src/Auth/Rules.antt =====
-- What each call of the store and the guards of internal/auth/service.go leave unchanged, as rules
-- for chains of calls.
use caddytower.Prelude.{
  ℕ, ◌+◌, ◌≡◌, refl, ◌∙◌, Bool, true, false, Option, none, some, ◌++◌, find_first, arith, leb,
  length, Bool-cases, inl, inr,
}
use caddytower.Prelude.Texts.{Text, text_eq, codes}
use caddytower.Prelude.Effects.{
  Outcome, ok, fail, Ends, done, failed, bind-Ends, then-Ends, ◌>>◌, Ends-mono,
}
use caddytower.Store.Auth.{
  UserRecord, AuthDb, StoreError, found, reject_if, write, append_audit, audit_refused, get_user,
  statement, insert_audit_log,
}
use caddytower.Auth.{
  AuthState, AuthError, store, Library, allow_ip, recent, require, login_error, audit,
}

-- The tables of accounts and sessions, the clock and the settings are as before.
pub record Unchanged (s t : AuthState) : Type 0 where
  pub users : t.db.users ≡ s.db.users
  pub sessions : t.db.sessions ≡ s.db.sessions
  pub clock : t.db.clock ≡ s.db.clock
  pub secrets : t.secrets ≡ s.secrets
  pub session_ttl : t.session_ttl ≡ s.session_ttl
  pub lockout_after : t.lockout_after ≡ s.lockout_after
  pub lockout_duration : t.lockout_duration ≡ s.lockout_duration

pub Unchanged-refl : (s : AuthState) → Unchanged s s
Unchanged-refl s = record {
  users = refl;
  sessions = refl;
  clock = refl;
  secrets = refl;
  session_ttl = refl;
  lockout_after = refl;
  lockout_duration = refl;
}

pub Unchanged-trans : {s t u : AuthState} → Unchanged s t → Unchanged t u → Unchanged s u
Unchanged-trans h k = record {
  users = k.users ∙ h.users;
  sessions = k.sessions ∙ h.sessions;
  clock = k.clock ∙ h.clock;
  secrets = k.secrets ∙ h.secrets;
  session_ttl = k.session_ttl ∙ h.session_ttl;
  lockout_after = k.lockout_after ∙ h.lockout_after;
  lockout_duration = k.lockout_duration ∙ h.lockout_duration;
}

pub allow_ip-Ends :
    (ip : Text) (s : AuthState) → Ends (λ _ t. Unchanged s t) (λ _ t. Unchanged s t) (allow_ip ip s)
unfolding allow_ip
allow_ip-Ends ip s = elim (Bool-cases (text_eq ip (codes ""))) [
  | inl e ↦ rw e (done (ground arith))
  | inr e ↦
      elim (Bool-cases (leb s.ip_limit (length (recent s.ip_window s.clock (s.ip_attempts ip))))) [
        | inl full ↦ rw (e, full) (done (ground arith))
        | inr room ↦ rw (e, room) (done (ground arith))
      ]
]

pub require-Ends :
    (b : Bool) (e : AuthError) (s : AuthState)
    → Ends (λ _ t. (b ≡ true) × (t ≡ s)) (λ _ t. t ≡ s) (require b e s)
require-Ends true e s = done (refl, refl)
require-Ends false e s = failed refl

pub stored-Ends :
    {A : Type 0} {P : A → AuthDb → Type 0} {Q : StoreError → AuthDb → Type 0}
    {P' : A → AuthState → Type 0} {Q' : AuthError → AuthState → Type 0} (s : AuthState)
    {o : Outcome AuthDb StoreError A}
    → Ends P Q o
    → ((a : A) (d : AuthDb) → P a d → P' a (record s { db = d }))
    → ((e : StoreError) (d : AuthDb) → Q e d → Q' (store e) (record s { db = d }))
    → Ends P' Q' (elim o [
      | ok a d ↦ ok a (record s { db = d })
      | fail e d ↦ fail (store e) (record s { db = d })
    ])
stored-Ends s (done {a} {s = d} h) f g = done (f a d h)
stored-Ends s (failed {e} {s = d} h) f g = failed (g e d h)

abbrev pub SameTables : AuthDb → AuthDb → Type 0
SameTables d t = (t.users ≡ d.users) × (t.sessions ≡ d.sessions) × (t.clock ≡ d.clock)

pub statement-Ends :
    (d : AuthDb) → Ends (λ _ t. SameTables d t) (λ _ t. SameTables d t) (statement d)
unfolding statement
statement-Ends d = elim (Bool-cases (d.fails d.executed)) [
  | inl e ↦ rw (e, statement) (failed (refl, refl, refl))
  | inr e ↦ rw (e, statement) (done (refl, refl, refl))
]

pub statement-works :
    (d : AuthDb)
    → d.fails d.executed ≡ false
    → Ends (λ _ t. SameTables d t) (λ _ _. ⊥) (statement d)
unfolding statement
statement-works d e = rw (e, statement) (done (refl, refl, refl))

pub found-Ends :
    {A : Type 0} (row : Option A) (d : AuthDb)
    → Ends (λ u t. (row ≡ some u) × (t ≡ d)) (λ _ t. t ≡ d) (found row d)
found-Ends none d = failed refl
found-Ends (some u) d = done (refl, refl)

pub get_user-Ends :
    (q : UserRecord → Bool) (d : AuthDb)
    → Ends
        (λ u t. (find_first q d.users ≡ some u) × SameTables d t)
        (λ _ t. SameTables d t)
        (get_user q d)
unfolding get_user
get_user-Ends q d = bind-Ends (statement-Ends d) λ _ t same.
    Ends-mono (found-Ends (find_first q t.users) t)
      (λ u t' h. rw (← same.0, h.1) (h.0, (refl, same.1, same.2))) (λ _ t' h. rw h same)

pub hide_missing-Ends :
    {A : Type 0} {P : A → AuthState → Type 0} {Q : AuthState → Type 0}
    {o : Outcome AuthState AuthError A}
    → Ends P (λ _ t. Q t) o
    → Ends P (λ _ t. Q t) (elim o [ ok a t ↦ ok a t | fail e t ↦ fail (login_error e) t ])
hide_missing-Ends (done h) = done h
hide_missing-Ends (failed h) = failed h

-- A state in which only the database has run statements that keep its tables.
pub Unchanged-db :
    {s : AuthState} (d : AuthDb) → SameTables s.db d → Unchanged s (record s { db = d })
Unchanged-db d h = record {
  users = h.0;
  sessions = h.1;
  clock = h.2;
  secrets = refl;
  session_ttl = refl;
  lockout_after = refl;
  lockout_duration = refl;
}

pub Unchanged-of_eq : {s t : AuthState} → t ≡ s → Unchanged s t
Unchanged-of_eq {s} e = rw e (Unchanged-refl s)

pub reject_if-Ends :
    (test : AuthDb → Bool) (d : AuthDb) → Ends (λ _ t. t ≡ d) (λ _ t. t ≡ d) (reject_if test d)
reject_if-Ends test d = elim (Bool-cases (test d)) [
  | inl e ↦ rw e (failed refl)
  | inr e ↦ rw e (done refl)
]

Unchanged-drawn :
    {s : AuthState} {n : ℕ} (d : AuthDb)
    → SameTables s.db d
    → Unchanged s (record s { db = d; drawn = n })
Unchanged-drawn d h = record {
  users = h.0;
  sessions = h.1;
  clock = h.2;
  secrets = refl;
  session_ttl = refl;
  lockout_after = refl;
  lockout_duration = refl;
}

-- Writing an audit entry keeps the tables of accounts and sessions, also where it fails.
insert_audit_log-Ends :
    (id user action target : Text) (d : AuthDb)
    → Ends
        (λ _ t. SameTables d t)
        (λ _ t. SameTables d t)
        (insert_audit_log id user action target d)
unfolding insert_audit_log
insert_audit_log-Ends id user action target d =
    then-Ends
      (reject_if (audit_refused id user)
        >> write
            (append_audit (record { id = id; user_id = user; action = action; target = target })))
      (statement-Ends d)
      λ _ t same.
        then-Ends {R = λ _ r. SameTables d r}
          (write
            (append_audit (record { id = id; user_id = user; action = action; target = target })))
          (Ends-mono (reject_if-Ends (audit_refused id user) t) (λ _ r e. rw e same)
            (λ _ r e. rw e same))
          λ _ r h. done h

pub audit-Ends :
    (lib : Library) (user action : Text) (s : AuthState)
    → Ends (λ _ t. Unchanged s t) (λ _ t. Unchanged s t) (audit lib user action s)
unfolding audit
audit-Ends lib user action s =
    stored-Ends (record s { drawn = s.drawn + 1 })
      (insert_audit_log-Ends (lib.uuid s.drawn) user action (codes "user:" ++ user) s.db)
      (λ _ d h. Unchanged-drawn d h) (λ _ d h. Unchanged-drawn d h)
