-- ===== src/Auth.antt =====
-- internal/auth/service.go: passwords with TOTP codes, lockout, sessions and the limit of login
-- attempts for each client address. bcrypt, TOTP, SHA-256 and the random source are parameters.
-- A request reads one time, the `clock` of its state. A Go map is a function.
pub mod Operations
pub mod Rules
pub mod Attempts
pub mod Lockout
pub mod Counting
pub mod Sessions
pub mod Setup
mod Tests
use caddytower.Prelude.{
  ℕ, ◌+◌, ◌-◌, ◌*◌, Bool, true, false, ◌&&◌, ◌||◌, not, Option, none, some, List, [], ◌∷◌, ◌++◌,
  length, keep, ltb, leb, ◌==◌, if◌then◌else◌,
}
use caddytower.Prelude.Texts.{Text, text_eq, codes, trim_space, to_lower, has_prefix, drop_prefix}
use caddytower.Prelude.Effects.{M, Outcome, ok, fail, ◌>>=◌, ◌>>◌, return, throw}
use caddytower.Store.Auth.{
  UserRecord, SessionRecord, AuthDb, StoreError, not_found, database, constraint, Db, user_count,
  create_user, get_user_by_email, get_user_by_id, update_user_login_failures,
  clear_user_login_failures, create_session, get_session, delete_session, delete_expired_sessions,
  insert_audit_log,
}
use caddytower.Secrets.{
  Crypto, Service, nil, keyed, SecretError, Result, value, error, encrypt_string, decrypt_string,
}

-- What the package calls. `uuid` and `random_token` give the n-th draw of the random source.
pub record Library : Type 0 where
  pub crypto : Crypto
  pub bcrypt_hash : Text → Option Text
  pub bcrypt_matches : Text → Text → Bool
  pub totp_valid : Text → Text → ℕ → Bool
  pub sha256_hex : Text → Text
  pub uuid : ℕ → Text
  pub random_token : ℕ → ℕ → Text
  pub random_nonce : ℕ → Option Text

pub data AuthError : Type 0 where
  invalid_credentials account_locked too_many_requests setup_complete invalid_setup : AuthError
  short_password hash_password no_master_key : AuthError
  secret : SecretError → AuthError
  store : StoreError → AuthError

pub record AuthState : Type 0 where
  pub db : AuthDb
  pub open db use {clock}
  pub secrets : Service
  pub session_ttl : ℕ
  pub lockout_after : ℕ
  pub lockout_duration : ℕ
  pub ip_window : ℕ
  pub ip_limit : ℕ
  pub ip_attempts : Text → List ℕ
  pub drawn : ℕ

pub record User : Type 0 where
  pub id : Text
  pub email : Text
  pub created_at : ℕ

abbrev pub Auth : Type 0 → Type 0
Auth A = M AuthState AuthError A

abbrev pub second : ℕ
second = 1000000000

-- The settings of `New`.
unfoldable pub new : AuthDb → Service → AuthState
new db secrets = record {
  db = db;
  secrets = secrets;
  session_ttl = 12 * 3600 * second;
  lockout_after = 5;
  lockout_duration = 15 * 60 * second;
  ip_window = 5 * 60 * second;
  ip_limit = 20;
  ip_attempts = λ _. [];
  drawn = 0;
}

abbrev pub stored : {A : Type 0} → Db A → Auth A
stored m s = elim (m s.db) [
  | ok a d ↦ ok a (record s { db = d })
  | fail e d ↦ fail (store e) (record s { db = d })
]

abbrev pub require : Bool → AuthError → Auth (Unit {0})
require true e s = ok tt s
require false e s = fail e s

abbrev pub read_clock : Auth ℕ
read_clock s = ok s.clock s

abbrev pub draw : Auth ℕ
draw s = ok s.drawn (record s { drawn = s.drawn + 1 })

abbrev pub user_from_record : UserRecord → User
user_from_record r = record { id = r.id; email = r.email; created_at = r.created_at }

unfoldable pub bootstrap_required : Auth Bool
unfolding user_count
bootstrap_required = do count ← stored user_count; return (count == 0)

abbrev pub set_attempts : Text → List ℕ → AuthState → AuthState
set_attempts ip l s = record s { ip_attempts = λ k. if text_eq ip k then l else s.ip_attempts k }

abbrev pub recent : ℕ → ℕ → List ℕ → List ℕ
recent window now = keep (λ attempt. leb (now - attempt) window)

unfoldable pub allow_ip : Text → Auth Bool
unfolding text_eq keep
allow_ip ip s =
    let kept = recent s.ip_window s.clock (s.ip_attempts ip) in
    if text_eq ip (codes "")
    then ok true s
    else if leb s.ip_limit (length kept)
    then ok false (set_attempts ip kept s)
    else ok true (set_attempts ip (kept ++ s.clock ∷ []) s)

unfoldable pub clear_ip_attempts : Text → Auth (Unit {0})
unfolding text_eq
clear_ip_attempts ip s = if text_eq ip (codes "") then ok tt s else ok tt (set_attempts ip [] s)

abbrev pub encrypted_mark : Text
encrypted_mark = codes "enc:"

abbrev pub is_locked : ℕ → Option ℕ → Bool
is_locked now none = false
is_locked now (some until) = ltb now until

abbrev pub ignore_failure : Auth (Unit {0}) → Auth (Unit {0})
ignore_failure m s = elim (m s) [ ok _ t ↦ ok tt t | fail _ t ↦ ok tt t ]

abbrev pub login_error : AuthError → AuthError
login_error (store not_found) = invalid_credentials
login_error e = e

-- An unknown address is reported as wrong credentials.
abbrev pub hide_missing : {A : Type 0} → Auth A → Auth A
hide_missing m s = elim (m s) [ ok a t ↦ ok a t | fail e t ↦ fail (login_error e) t ]

-- What `decodeSecret` returns.
pub data Decoded : Type 0 where
  plain : Text → Decoded
  refused : AuthError → Decoded

module _ (lib : Library) where
  unfoldable pub validate_totp : Text → Text → ℕ → Bool
  validate_totp totp_secret code at = lib.totp_valid code totp_secret at

  unfoldable pub hash_token : Text → Text
  hash_token raw = lib.sha256_hex raw

  sealed : Result Text → Auth Text
  sealed (value text) s = ok (encrypted_mark ++ text) s
  sealed (error e) s = fail (secret e) s

  unfoldable pub encode_secret : Text → Auth Text
  unfolding sealed encrypt_string
  encode_secret text s = elim s.secrets [
    | nil ↦ ok text s
    | keyed key ↦
        sealed (encrypt_string lib.crypto (lib.random_nonce s.drawn) (keyed key) text)
          (record s { drawn = s.drawn + 1 })
  ]

  opened : Result Text → Decoded
  opened (value text) = plain text
  opened (error e) = refused (secret e)

  decrypt_with : Service → Text → Decoded
  unfolding opened decrypt_string
  decrypt_with nil text = refused no_master_key
  decrypt_with (keyed key) text = opened (decrypt_string lib.crypto (keyed key) text)

  unfoldable pub decoded : Service → Text → Decoded
  unfolding decrypt_with has_prefix drop_prefix
  decoded secrets text =
      if has_prefix text encrypted_mark
      then decrypt_with secrets (drop_prefix text encrypted_mark)
      else plain text

  unfoldable pub decode_secret : Text → Auth Text
  unfolding decoded
  decode_secret text s = elim (decoded s.secrets text) [ plain t ↦ ok t s | refused e ↦ fail e s ]

  unfoldable pub audit : Text → Text → Auth (Unit {0})
  unfolding insert_audit_log
  audit user_id action = do
    n ← draw
    stored (insert_audit_log (lib.uuid n) user_id action (codes "user:" ++ user_id))

  unfoldable pub open_session : Text → Text → Text → Auth Text
  unfolding delete_expired_sessions create_session hash_token
  open_session user_id ip user_agent = do
    t ← read_clock
    stored (delete_expired_sessions t)
    n ← draw
    let raw = lib.random_token 32 n
    ttl ← (λ s. ok s.session_ttl s)
    stored (
        create_session (record {
          token = hash_token raw;
          user_id = user_id;
          expires_at = t + ttl;
          ip = ip;
          user_agent = user_agent;
          created_at = 0;
        }))
    return raw
