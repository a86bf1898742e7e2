-- ===== src/Auth/Sessions.antt =====
-- Sessions (`Authenticate`, `Logout`, internal/auth/service.go).
use caddytower.Prelude.{
  ℕ, ◌≡◌, refl, sym, ◌∙◌, ap, Bool, true, false, not, none, some, List, [], ◌∷◌, find_first, keep,
  arith, ltb, Bool-cases, inl, inr,
}
use mathlib.Core.Path.{ap₂}
use caddytower.Prelude.Texts.{Text, text_eq, codes, trim_space}
use caddytower.Prelude.Effects.{
  ok, Ends, done, failed, Ends-ok, Ends-const, bind-Ends, then-Ends, throw, Ends-mono,
}
use caddytower.Store.Auth.{
  UserRecord, SessionRecord, AuthDb, not_found, is_session, is_alive, is_user, delete_session,
  delete_expired_sessions, get_session, get_user_by_id,
}
use caddytower.Auth.{
  AuthState, store, Library, User, stored, ignore_failure, read_clock, hash_token, user_from_record,
}
use caddytower.Auth.Rules.{statement-Ends, stored-Ends, require-Ends, get_user-Ends, found-Ends}
use caddytower.Auth.Operations.{authenticate, logout, drop_if_expired, live_session_of}

-- A session that is found among the live ones is found among all, and is alive.
find_first-keep :
    (q p : SessionRecord → Bool) (xs : List SessionRecord) (x : SessionRecord)
    → find_first q (keep p xs) ≡ some x
    → p x ≡ true
unfolding find_first keep
find_first-keep q p [] x h = cc
find_first-keep q p (y ∷ ys) x h = ground (arith, find_first-keep q p ys x)

find_first-drop :
    (q : SessionRecord → Bool) (xs : List SessionRecord)
    → find_first q (keep (λ x. not (q x)) xs) ≡ none
unfolding find_first keep
find_first-drop q [] = refl
find_first-drop q (y ∷ ys) = ground (arith, find_first-drop q ys)

delete_session-Ends :
    (token : Text) (d : AuthDb)
    → Ends
        (λ _ t. find_first (is_session token) t.sessions ≡ none)
        (λ _ _. Unit {0})
        (delete_session token d)
unfolding delete_session
delete_session-Ends token d =
    bind-Ends (Ends-mono (statement-Ends d) (λ _ _ h. h) (λ _ _ h. tt))
      λ _ t _. done (find_first-drop (is_session token) t.sessions)

-- A token that is not blank is no session once `Logout` has succeeded.
pub logout-forgets :
    (lib : Library) (raw : Text) (s t : AuthState)
    → text_eq (trim_space raw) (codes "") ≡ false
    → logout lib raw s ≡ ok tt t
    → find_first (is_session (hash_token lib raw)) t.db.sessions ≡ none
unfolding logout
logout-forgets lib raw s t blank h =
    Ends-ok {P = λ _ r. find_first (is_session (hash_token lib raw)) r.db.sessions ≡ none}
      {Q = λ _ _. Unit {0}}
      (rw blank
        (stored-Ends s (delete_session-Ends (hash_token lib raw) s.db) (λ _ _ p. p) (λ _ _ p. p)))
      h

-- The session and the user that let a token in.
abbrev pub Admitted : Library → Text → AuthState → User → Type 0
Admitted lib raw s user =
    (session : SessionRecord) × (record' : UserRecord) × (find_first
        (is_session (hash_token lib raw)) (keep (is_alive s.clock) s.db.sessions)
      ≡ some session)
    × (find_first (is_user session.user_id) s.db.users ≡ some record')
    × (user ≡ user_from_record record')

delete_expired_sessions-Ends :
    (now : ℕ) (d : AuthDb)
    → Ends
        (λ _ t.
          (t.users ≡ d.users) × (t.sessions ≡ keep (is_alive now) d.sessions) × (t.clock ≡ d.clock))
        (λ _ _. Unit {0})
        (delete_expired_sessions now d)
unfolding delete_expired_sessions
delete_expired_sessions-Ends now d =
    bind-Ends (Ends-mono (statement-Ends d) (λ _ _ h. h) (λ _ _ h. tt))
      λ _ t h. done (h.0, ap (keep (is_alive now)) h.1, h.2)

get_session-Ends :
    (token : Text) (d : AuthDb)
    → Ends
        (λ x t. (find_first (is_session token) d.sessions ≡ some x) × (t.users ≡ d.users))
        (λ _ _. Unit {0})
        (get_session token d)
unfolding get_session
get_session-Ends token d =
    bind-Ends (Ends-mono (statement-Ends d) (λ _ _ h. h) (λ _ _ _. tt)) λ _ t same.
      Ends-mono (found-Ends (find_first (is_session token) t.sessions) t)
        (λ x r h. (
          ap (find_first (is_session token)) (sym same.1) ∙ h.0,
          ap (λ (q : AuthDb). q.users) h.1 ∙ same.0,
        ))
        (λ _ _ _. tt)

module _ (lib : Library) where
  drop_if_expired-Ends :
      (x : SessionRecord) (s : AuthState)
      → Ends (λ _ t. t ≡ s) (λ _ _. Unit {0}) (drop_if_expired lib x s)
  unfolding drop_if_expired
  drop_if_expired-Ends x s = elim (Bool-cases (ltb x.expires_at s.clock)) [
    | inl e ↦ rw e (
        then-Ends {R = λ _ _. Unit {0}} (throw (store not_found))
          (Ends-const (ignore_failure (stored (delete_session x.token)) s) tt) λ _ _ _. failed tt)
    | inr e ↦ rw e (done refl)
  ]

  -- What is known when the session is read, and when its user is.
  abbrev Live : Text → AuthState → SessionRecord → AuthState → Type 0
  Live raw s x r =
      (find_first (is_session (hash_token lib raw)) (keep (is_alive s.clock) s.db.sessions)
        ≡ some x)
      × (r.db.users ≡ s.db.users)

  abbrev Swept : AuthState → AuthState → Type 0
  Swept s r = (r.db.users ≡ s.db.users) × (r.db.sessions ≡ keep (is_alive s.clock) s.db.sessions)

  Live-session :
      (raw : Text) (s : AuthState)
      → Ends (λ x r. Live raw s x r) (λ _ _. Unit {0}) (live_session_of lib raw s)
  unfolding live_session_of
  Live-session raw s =
      then-Ends {R = λ _ q. q ≡ s} _
        (Ends-mono (require-Ends (not (text_eq (trim_space raw) (codes ""))) (store not_found) s)
          (λ _ _ k. k.1) (λ _ _ _. tt))
        λ _ q eq.
          bind-Ends {R = λ t r. (t ≡ q.clock) × (r ≡ q)} {o = read_clock q} (done (refl, refl))
            λ t q' eq'.
              then-Ends {R = λ _ r. Swept s r} (stored (get_session (hash_token lib raw)))
                (stored-Ends q' (delete_expired_sessions-Ends t q'.db)
                  (λ _ d k. (
                    k.0 ∙ ap (λ (y : AuthState). y.db.users) (eq'.1 ∙ eq),
                    k.1
                        ∙ ap₂ (λ (n : ℕ) (y : AuthState). keep (is_alive n) y.db.sessions)
                            (eq'.0 ∙ ap (λ (y : AuthState). y.clock) eq) (eq'.1 ∙ eq),
                  ))
                  (λ _ _ _. tt))
                λ _ r k.
                  stored-Ends r (get_session-Ends (hash_token lib raw) r.db)
                    (λ x d f. (
                      ap (find_first (is_session (hash_token lib raw))) (sym k.1) ∙ f.0,
                      f.1 ∙ k.0,
                    ))
                    (λ _ _ _. tt)

  -- A token is admitted only for a session that has not expired, under the token's hash, and the user
  -- is that of the session, whatever the database does.
  pub authenticate-Admitted :
      (raw : Text) (s t : AuthState) (user : User)
      → authenticate lib raw s ≡ ok user t
      → Admitted lib raw s user
  unfolding authenticate get_user_by_id
  authenticate-Admitted raw s t user h =
      Ends-ok {P = λ v _. Admitted lib raw s v} {Q = λ _ _. Unit {0}}
        (bind-Ends (Live-session raw s) λ x r live.
          then-Ends {R = λ _ q. q ≡ r} _ (drop_if_expired-Ends x r) λ _ q eq.
            bind-Ends {R = λ u _. find_first (is_user x.user_id) s.db.users ≡ some u}
              (stored-Ends q (get_user-Ends (is_user x.user_id) q.db)
                (λ u d f.
                  ap (find_first (is_user x.user_id))
                    (sym (ap (λ (y : AuthState). y.db.users) eq ∙ live.1))
                  ∙ f.0)
                (λ _ _ _. tt))
              λ u w found_user. done (x, u, live.0, found_user, refl))
        h
