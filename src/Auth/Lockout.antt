-- ===== src/Auth/Lockout.antt =====
-- Lockout after failed logins (`Login`, internal/auth/service.go).
use caddytower.Prelude.{
  &&-true, ℕ, ◌+◌, ◌≡◌, refl, sym, ◌∙◌, ap, Bool, true, false, Option, some, find_first,
  if◌then◌else◌, not,
}
use caddytower.Prelude.Texts.{Text, codes, trim_space}
use caddytower.Prelude.Effects.{
  ok, fail, Ends, done, failed, Ends-ok, Ends-const, bind-Ends, then-Ends, ◌>>◌, throw, Ends-mono,
}
use caddytower.Store.Auth.{UserRecord, update_user_login_failures, has_email, get_user_by_email}
use caddytower.Auth.{
  AuthState, AuthError, Library, User, Auth, is_locked, stored, ignore_failure, too_many_requests,
  validate_totp, decode_secret, decoded, Decoded, plain, refused, account_locked, audit,
}
use caddytower.Secrets.{Service}
use caddytower.Auth.Rules.{
  Unchanged, Unchanged-trans, Unchanged-db, Unchanged-of_eq, allow_ip-Ends, require-Ends,
  stored-Ends, get_user-Ends, hide_missing-Ends,
}
use caddytower.Auth.Operations.{
  login, check_login, reject_login, accept_login, normalize_email, credentials_match, lock_after,
  locked_error,
}

-- The record that the store has for an address.
abbrev pub account : Text → AuthState → Option UserRecord
account email s = find_first (has_email (normalize_email email)) s.db.users

not-true : (b : Bool) → not b ≡ true → b ≡ false
not-true true h = cc
not-true false h = refl

module _ (lib : Library) where
  check_login-locked :
      (u : UserRecord) (password code ip agent : Text) (s : AuthState)
      → is_locked s.clock u.locked_until ≡ true
      → check_login lib u password code ip agent s ≡ fail account_locked s
  unfolding check_login
  check_login-locked u password code ip agent s h = rw h

  -- A login fails with the accounts unchanged, or checks the record of the address.
  pub login-Ends :
      {P : Text × User → AuthState → Type 0} {Q : AuthState → Type 0}
      (email password code ip agent : Text) (s : AuthState)
      → ((u : UserRecord) (t : AuthState)
          → account email s ≡ some u
          → Unchanged s t
          → Ends P (λ _ r. Q r) (check_login lib u password (trim_space code) ip agent t))
      → ((t : AuthState) → Unchanged s t → Q t)
      → Ends P (λ _ r. Q r) (login lib email password code ip agent s)
  unfolding login get_user_by_email
  login-Ends email password code ip agent s check keep =
      bind-Ends (Ends-mono (allow_ip-Ends ip s) (λ _ _ h. h) (λ _ t h. keep t h)) λ a t same.
        bind-Ends
          (Ends-mono (require-Ends a too_many_requests t)
            (λ _ t' e. Unchanged-trans same (Unchanged-of_eq e.1))
            (λ _ t' e. keep t' (Unchanged-trans same (Unchanged-of_eq e))))
          λ _ t' same'.
            bind-Ends {R = λ v r. (account email s ≡ some v) × Unchanged s r}
              (hide_missing-Ends (
                stored-Ends t' (get_user-Ends (has_email (normalize_email email)) t'.db)
                  (λ v d found. (
                    ap (find_first (has_email (normalize_email email))) (sym same'.users) ∙ found.0,
                    Unchanged-trans same' (Unchanged-db d found.1),
                  ))
                  (λ _ d tables.
                    keep (record t' { db = d }) (Unchanged-trans same' (Unchanged-db d tables)))))
              λ v r p. check v r p.0 p.1

  -- A login to a locked account never succeeds, whatever the password and the code are and whether
  -- or not the database fails, and it leaves the accounts and the sessions as they are.
  pub login-locked :
      (email password code ip agent : Text) (s : AuthState) (u : UserRecord)
      → account email s ≡ some u
      → is_locked s.clock u.locked_until ≡ true
      → Ends
          (λ _ _. ⊥)
          (λ _ t. (t.db.users ≡ s.db.users) × (t.db.sessions ≡ s.db.sessions))
          (login lib email password code ip agent s)
  login-locked email password code ip agent s u h locked =
      login-Ends email password code ip agent s
        (λ v t e same.
          let same_user : v ≡ u = cc in
          rw
            (check_login-locked v password (trim_space code) ip agent t
              (rw (same.clock, same_user) locked))
            (failed (same.users, same.sessions)))
        (λ t same. (same.users, same.sessions))

  -- What a successful login had to show: a record that is not locked, and the password and the code
  -- of that record.
  abbrev pub Accepted : Text → Text → Text → AuthState → UserRecord → Type 0
  Accepted email password code s u =
      (account email s ≡ some u)
      × (is_locked s.clock u.locked_until ≡ false)
      × (totp_secret : Text) × (decoded lib s.secrets u.totp_secret ≡ plain totp_secret)
      × (lib.bcrypt_matches u.password_hash password ≡ true)
      × (validate_totp lib totp_secret (trim_space code) s.clock ≡ true)

  credentials_match_both :
      (u : UserRecord) (password totp_secret code : Text) (at : ℕ)
      → credentials_match lib u password totp_secret code at ≡ true
      → (lib.bcrypt_matches u.password_hash password ≡ true)
        × (validate_totp lib totp_secret code at ≡ true)
  unfolding credentials_match
  credentials_match_both u password totp_secret code at h =
      &&-true (lib.bcrypt_matches u.password_hash password) (validate_totp lib totp_secret code at)
        h

  decode_secret-Ends :
      (text : Text) (s : AuthState)
      → Ends
          (λ t r. (decoded lib s.secrets text ≡ plain t) × (r ≡ s))
          (λ _ t. t ≡ s)
          (decode_secret lib text s)
  unfolding decode_secret
  decode_secret-Ends text s = go (decoded lib s.secrets text) refl
    where
      go :
          (d : Decoded)
          → decoded lib s.secrets text ≡ d
          → Ends
              (λ t r. (decoded lib s.secrets text ≡ plain t) × (r ≡ s))
              (λ _ t. t ≡ s)
              (decode_secret lib text s)
      go (plain t) e = rw (e, decode_secret) (done (refl, refl))
      go (refused x) e = rw (e, decode_secret) (failed refl)

  -- A rejected login never succeeds, whatever the database does.
  reject_login-fails :
      (u : UserRecord) (s : AuthState) → Ends (λ _ _. ⊥) (λ _ _. Unit {0}) (reject_login lib u s)
  unfolding reject_login
  reject_login-fails u s =
      let n = u.failed_login_count + 1 in
      let note : Auth (Unit {0}) = ignore_failure (audit lib u.id (codes "user.login_failed")) in
      let fails : Auth (Text × User) = throw (locked_error (lock_after s n)) in
      then-Ends {R = λ _ _. Unit {0}} (note >> fails)
        (Ends-const (stored (update_user_login_failures u.id n (lock_after s n)) s) tt)
        λ _ t _. then-Ends {R = λ _ _. Unit {0}} fails (Ends-const (note t) tt) λ _ r _. failed tt

  if-Ends :
      {P : Text × User → AuthState → Type 0} {Q : AuthError → AuthState → Type 0} (b : Bool)
      (m k : Auth (Text × User)) (s : AuthState)
      → (b ≡ true → Ends P Q (m s))
      → (b ≡ false → Ends P Q (k s))
      → Ends P Q ((if b then m else k) s)
  if-Ends true m k s h g = h refl
  if-Ends false m k s h g = g refl

  check_login-Accepted :
      (email password code ip agent : Text) (s : AuthState) (u : UserRecord) (t : AuthState)
      → account email s ≡ some u
      → Unchanged s t
      → Ends
          (λ _ _. (v : UserRecord) × Accepted email password code s v)
          (λ _ _. Unit {0})
          (check_login lib u password (trim_space code) ip agent t)
  unfolding check_login
  check_login-Accepted email password code ip agent s u t found_user same =
      bind-Ends
        (Ends-mono (require-Ends (not (is_locked t.clock u.locked_until)) account_locked t)
          (λ _ _ h. h) (λ _ _ _. tt))
        λ _ q unlocked.
          bind-Ends (Ends-mono (decode_secret-Ends u.totp_secret q) (λ _ _ h. h) (λ _ _ _. tt))
            λ totp r plain_text.
              let secret_path : decoded lib s.secrets u.totp_secret ≡ plain totp =
                ap (λ (x : Service). decoded lib x u.totp_secret) (sym same.secrets)
                ∙ ap (λ (x : AuthState). decoded lib x.secrets u.totp_secret) (sym unlocked.1)
                ∙ plain_text.0 in
              if-Ends (credentials_match lib u password totp (trim_space code) t.clock) _ _ r
                (λ right.
                  let both =
                    credentials_match_both u password totp (trim_space code) t.clock right in
                  Ends-const (accept_login lib u ip agent r) (
                    u,
                    (
                      found_user,
                      rw (← same.clock) (not-true (is_locked t.clock u.locked_until) unlocked.0),
                      totp,
                      secret_path,
                      both.0,
                      rw (← same.clock) both.1,
                    ),
                  ))
                (λ _. Ends-mono (reject_login-fails u r) (λ _ _ no. absurd no) (λ _ _ _. tt))

  -- A login succeeds only for a record that is not locked, with the password and the code of that
  -- record, whatever the database does.
  pub login-Accepted :
      (email password code ip agent : Text) (s t : AuthState) (r : Text × User)
      → login lib email password code ip agent s ≡ ok r t
      → (u : UserRecord) × Accepted email password code s u
  login-Accepted email password code ip agent s t r h =
      Ends-ok {P = λ _ _. (u : UserRecord) × Accepted email password code s u} {Q = λ _ _. Unit {0}}
        (login-Ends email password code ip agent s
          (λ u q e same. check_login-Accepted email password code ip agent s u q e same)
          (λ _ _. tt))
        h
