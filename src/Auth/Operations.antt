-- ===== src/Auth/Operations.antt =====
-- internal/auth/service.go: `CreateInitialUser`, `Login`, `Authenticate` and `Logout`.
use caddytower.Prelude.{ℕ, ◌+◌, Bool, ◌&&◌, ◌||◌, not, Option, none, some, ltb, leb, if◌then◌else◌}
use caddytower.Prelude.Texts.{Text, byte_length, text_eq, codes, trim_space, to_lower}
use caddytower.Prelude.Effects.{ok, fail, ◌>>=◌, ◌>>◌, return, throw}
use caddytower.Store.Auth.{
  UserRecord, SessionRecord, not_found, create_user, get_user_by_email, get_user_by_id,
  update_user_login_failures, clear_user_login_failures, get_session, delete_session,
  delete_expired_sessions,
}
use caddytower.Auth.{
  Library, AuthState, Auth, AuthError, invalid_credentials, account_locked, too_many_requests,
  setup_complete, invalid_setup, short_password, hash_password, store, User, stored, require,
  read_clock, draw, user_from_record, bootstrap_required, allow_ip, clear_ip_attempts, is_locked,
  ignore_failure, hide_missing, validate_totp, hash_token, encode_secret, decode_secret, audit,
  open_session,
}

abbrev pub normalize_email : Text → Text
normalize_email email = trim_space (to_lower email)

abbrev pub lock_after : AuthState → ℕ → Option ℕ
lock_after s failed =
    if leb s.lockout_after failed then some (s.clock + s.lockout_duration) else none

abbrev pub locked_error : Option ℕ → AuthError
locked_error none = invalid_credentials
locked_error (some until) = account_locked

module _ (lib : Library) where
  -- What `Login` does after a wrong password or code.
  unfoldable pub reject_login : UserRecord → Auth (Text × User)
  unfolding update_user_login_failures audit
  reject_login user s =
      let failed = user.failed_login_count + 1 in
      let until = lock_after s failed in
      (do
        stored (update_user_login_failures user.id failed until)
        ignore_failure (audit lib user.id (codes "user.login_failed"))
        throw (locked_error until))
        s

  -- What it does after the right ones.
  unfoldable pub accept_login : UserRecord → Text → Text → Auth (Text × User)
  unfolding clear_user_login_failures open_session clear_ip_attempts audit
  accept_login user ip user_agent = do
    stored (clear_user_login_failures user.id)
    token ← open_session lib user.id ip user_agent
    clear_ip_attempts ip
    audit lib user.id (codes "user.login")
    return (token, user_from_record user)

  unfoldable pub credentials_match : UserRecord → Text → Text → Text → ℕ → Bool
  unfolding validate_totp
  credentials_match user password totp_secret code now =
      lib.bcrypt_matches user.password_hash password && validate_totp lib totp_secret code now

  -- From the record that the store has for the address on.
  unfoldable pub check_login : UserRecord → Text → Text → Text → Text → Auth (Text × User)
  unfolding decode_secret credentials_match reject_login accept_login
  check_login user password code ip user_agent = do
    t ← read_clock
    require (not (is_locked t user.locked_until)) account_locked
    totp_secret ← decode_secret lib user.totp_secret
    if credentials_match user password totp_secret code t
        then accept_login user ip user_agent
        else reject_login user

  unfoldable pub login : Text → Text → Text → Text → Text → Auth (Text × User)
  unfolding allow_ip get_user_by_email check_login
  login email password code ip user_agent = do
    allowed ← allow_ip ip
    require allowed too_many_requests
    user ← hide_missing (stored (get_user_by_email (normalize_email email)))
    check_login user password (trim_space code) ip user_agent

  unfoldable pub drop_if_expired : SessionRecord → Auth (Unit {0})
  unfolding delete_session
  drop_if_expired session = do
    t ← read_clock
    if ltb session.expires_at t
        then ignore_failure (stored (delete_session session.token)) >> throw (store not_found)
        else return tt

  -- The session that a token stands for, once the expired ones are deleted.
  unfoldable pub live_session_of : Text → Auth SessionRecord
  unfolding trim_space text_eq delete_expired_sessions get_session hash_token
  live_session_of raw = do
    require (not (text_eq (trim_space raw) (codes ""))) (store not_found)
    t ← read_clock
    stored (delete_expired_sessions t)
    stored (get_session (hash_token lib raw))

  unfoldable pub authenticate : Text → Auth User
  unfolding live_session_of drop_if_expired get_user_by_id
  authenticate raw = do
    session ← live_session_of raw
    drop_if_expired session
    user ← stored (get_user_by_id session.user_id)
    return (user_from_record user)

  unfoldable pub logout : Text → Auth (Unit {0})
  unfolding trim_space text_eq delete_session hash_token
  logout raw =
      if text_eq (trim_space raw) (codes "")
      then return tt
      else stored (delete_session (hash_token lib raw))

  hashed : Text → Auth Text
  hashed password s = elim (lib.bcrypt_hash password) [
    | none ↦ fail hash_password s
    | some hash ↦ ok hash s
  ]

  -- The user that `CreateInitialUser` adds once its input is accepted.
  unfoldable pub add_user : Text → Text → Text → Text → Text → Auth (Text × User)
  unfolding hashed encode_secret create_user audit open_session
  add_user email password totp_secret ip user_agent = do
    hash ← hashed password
    at_rest ← encode_secret lib totp_secret
    n ← draw
    let user : UserRecord = record {
      id = lib.uuid n;
      email = email;
      password_hash = hash;
      totp_secret = at_rest;
      failed_login_count = 0;
      locked_until = none;
      created_at = 0;
    }
    stored (create_user user)
    audit lib user.id (codes "user.bootstrap")
    token ← open_session lib user.id ip user_agent
    return (token, user_from_record user)

  abbrev pub is_blank : Text → Bool
  is_blank t = text_eq t (codes "")

  unfoldable pub create_initial_user :
      Text → Text → Text → Text → Text → Text → Text → Auth (Text × User)
  unfolding bootstrap_required text_eq trim_space validate_totp add_user
  create_initial_user email password confirm totp_secret code ip user_agent = do
    required ← bootstrap_required
    require required setup_complete
    let address = normalize_email email
    let totp = trim_space totp_secret
    let digits = trim_space code
    require
        (not (
          is_blank address
          || is_blank password
          || is_blank confirm
          || is_blank totp
          || is_blank digits))
        invalid_setup
    require (text_eq password confirm) invalid_setup
    require (leb 12 (byte_length password)) short_password
    t ← read_clock
    require (validate_totp lib totp digits t) invalid_credentials
    add_user address password totp ip user_agent
