-- ===== src/Auth/Counting.antt =====
-- The count of failed logins (`Login`, internal/auth/service.go).
use caddytower.Prelude.{
  ℕ, ◌+◌, ◌≤◌, ◌<◌, ◌&&◌, List, [], ◌∷◌, Bool-cases, inl, inr, arith, none, ◌≡◌, refl, sym, ◌∙◌, ap,
  true, false, Option, some, update_where,
}
use caddytower.Prelude.Texts.{Text, codes}
use caddytower.Prelude.Effects.{
  Outcome, ok, fail, Ends, done, failed, then-Ends, ◌>>◌, throw, Ends-mono,
}
use mathlib.Core.Path.{subst}
use caddytower.Store.Auth.{
  UserRecord, AuthDb, write, update_user_login_failures, is_user, set_failures,
}
use caddytower.Auth.{
  AuthState, AuthError, Library, User, Auth, is_locked, ignore_failure, validate_totp,
  decode_secret, decoded, plain, account_locked, audit, invalid_credentials,
}
use caddytower.Auth.Rules.{stored-Ends, statement-works, audit-Ends}
use caddytower.Auth.Operations.{
  check_login, reject_login, credentials_match, lock_after, locked_error,
}

-- The record has `n` failures, and is locked from the limit on.
abbrev pub IsCounted : AuthState → ℕ → UserRecord → Type 0
IsCounted s n w =
    (w.failed_login_count ≡ n)
    × (s.lockout_after ≤ n → w.locked_until ≡ some (s.clock + s.lockout_duration))
    × (n < s.lockout_after → w.locked_until ≡ none)

-- The records of a user against those before: they have `n` failures, and differ from those before in
-- the count and the lock only. The other records are the same.
abbrev pub Counts : AuthState → ℕ → Text → List UserRecord → List UserRecord → Type 0
Counts s n id [] [] = Unit
Counts s n id [] (w ∷ ws) = ⊥
Counts s n id (v ∷ vs) [] = ⊥
Counts s n id (v ∷ vs) (w ∷ ws) =
    (is_user id v ≡ true
      → IsCounted s n w
        × (record w { failed_login_count = 0; locked_until = none }
            ≡ record v { failed_login_count = 0; locked_until = none }))
    × (is_user id v ≡ false → w ≡ v)
    × Counts s n id vs ws

lock_after-locked :
    (s : AuthState) (n : ℕ)
    → s.lockout_after ≤ n
    → lock_after s n ≡ some (s.clock + s.lockout_duration)
lock_after-locked s n h = ground arith

lock_after-open : (s : AuthState) (n : ℕ) → n < s.lockout_after → lock_after s n ≡ none
lock_after-open s n h = ground arith

updated-Counts :
    (s : AuthState) (n : ℕ) (id : Text) (us : List UserRecord)
    → Counts s n id us (update_where (is_user id) (set_failures n (lock_after s n)) us)
unfolding update_where
updated-Counts s n id [] = tt
updated-Counts s n id (u ∷ us) =
    let rest = updated-Counts s n id us in
    elim (Bool-cases (is_user id u)) [
      | inl e ↦ rw e (
        (λ _. ((refl, lock_after-locked s n, lock_after-open s n), refl)),
        (λ bad. absurd cc),
        rest,
      )
      | inr e ↦ rw e ((λ bad. absurd cc), (λ _. refl), rest)
    ]

module _ (lib : Library) where
  -- A wrong password or code: the failure is counted, and the record locked from the limit on.
  abbrev pub Counted : UserRecord → AuthState → AuthError → AuthState → Type 0
  Counted u s e t =
      let n = u.failed_login_count + 1 in
      (e ≡ locked_error (lock_after s n))
      × (t.db.users ≡ update_where (is_user u.id) (set_failures n (lock_after s n)) s.db.users)

  ignored-Ends :
      {o : Outcome AuthState AuthError (Unit {0})} {P : AuthState → Type 0}
      (Q : AuthError → AuthState → Type 0)
      → Ends (λ _ t. P t) (λ _ t. P t) o
      → Ends (λ _ t. P t) Q (elim o [ ok _ t ↦ ok tt t | fail _ t ↦ ok tt t ])
  ignored-Ends Q (done h) = done h
  ignored-Ends Q (failed h) = done h

  update_user_login_failures-works :
      (id : Text) (n : ℕ) (until : Option ℕ) (d : AuthDb)
      → d.fails d.executed ≡ false
      → Ends
          (λ _ t. t.users ≡ update_where (is_user id) (set_failures n until) d.users)
          (λ _ _. ⊥)
          (update_user_login_failures id n until d)
  unfolding update_user_login_failures
  update_user_login_failures-works id n until d works =
      then-Ends
        (write (λ r. record r { users = update_where (is_user id) (set_failures n until) r.users }))
        (statement-works d works)
        λ _ t h. done (ap (update_where (is_user id) (set_failures n until)) h.0)

  reject_login-Ends :
      (u : UserRecord) (s : AuthState)
      → s.db.fails s.db.executed ≡ false
      → Ends (λ _ _. ⊥) (λ e t. Counted u s e t) (reject_login lib u s)
  unfolding reject_login
  reject_login-Ends u s works =
      let n = u.failed_login_count + 1 in
      let after : AuthState → Type 0 = λ t.
        t.db.users ≡ update_where (is_user u.id) (set_failures n (lock_after s n)) s.db.users in
      let note : Auth (Unit {0}) = ignore_failure (audit lib u.id (codes "user.login_failed")) in
      let fails : Auth (Text × User) = throw (locked_error (lock_after s n)) in
      then-Ends {R = λ _ t. after t} (note >> fails)
        (stored-Ends s (update_user_login_failures-works u.id n (lock_after s n) s.db works)
          (λ _ d h. h) (λ _ _ h. absurd h))
        λ _ t h.
          then-Ends {R = λ _ r. after r} fails
            (ignored-Ends (λ e r. Counted u s e r)
              (Ends-mono (audit-Ends lib u.id (codes "user.login_failed") t) (λ _ r k. k.users ∙ h)
                (λ _ r k. k.users ∙ h)))
            λ _ r k. failed (refl, k)

  -- From the record of the address on, a login with a wrong password or a wrong code never succeeds, if
  -- the record is not locked and its secret can be read, and the database executes the update: then the
  -- records of the user have one failure more than the record had, and from `lockoutAfter` failures on
  -- they are locked for the lockout's duration; nothing else of them and no other record changes. The
  -- error says that the account is locked from that number of failures on, and below it that the
  -- credentials are invalid.
  pub check_login-Counts :
      (u : UserRecord) (password code totp_secret ip agent : Text) (s : AuthState)
      → is_locked s.clock u.locked_until ≡ false
      → decoded lib s.secrets u.totp_secret ≡ plain totp_secret
      → (lib.bcrypt_matches u.password_hash password && validate_totp lib totp_secret code s.clock)
        ≡ false
      → s.db.fails s.db.executed ≡ false
      → Ends
          (λ _ _. ⊥)
          (λ e t.
            Counts s (u.failed_login_count + 1) u.id s.db.users t.db.users
            × (s.lockout_after ≤ u.failed_login_count + 1 → e ≡ account_locked)
            × (u.failed_login_count + 1 < s.lockout_after → e ≡ invalid_credentials))
          (check_login lib u password code ip agent s)
  unfolding check_login decode_secret credentials_match
  check_login-Counts u password code totp_secret ip agent s unlocked plain_text wrong works =
      let n = u.failed_login_count + 1 in
      rw (unlocked, plain_text, wrong)
        (Ends-mono (reject_login-Ends u s works) (λ _ _ h. h)
          (λ e t h. (
            subst (λ (us : List UserRecord). Counts s n u.id s.db.users us) (sym h.1)
                (updated-Counts s n u.id s.db.users),
            (λ k. h.0 ∙ ap locked_error (lock_after-locked s n k)),
            (λ k. h.0 ∙ ap locked_error (lock_after-open s n k)),
          )))
