-- ===== src/Auth/Tests.antt =====
-- Runs of internal/auth/service.go with a library in which every text hashes to itself.
use caddytower.Prelude.{
  ℕ, ◌*◌, ◌≤◌, ◌<◌, ◌≡◌, refl, false, Option, none, some, [], ◌∷◌, length, find_first, update_where,
  exists, arith, keep,
}
use caddytower.Prelude.Texts.{Text, codes, text_eq, trim_space, lower}
use caddytower.Prelude.Effects.{Ends, final}
use caddytower.Secrets.{nil, Crypto}
use caddytower.Store.Auth.{UserRecord, is_session}
use caddytower.Auth.{AuthState, Library, new, account_locked, invalid_credentials, allow_ip, second}
use caddytower.Auth.Operations.{
  login, logout, authenticate, create_initial_user, reject_login, check_login,
}
use caddytower.Auth.Attempts.{allow_ip_bounded, answers-history, answers, answers_by_history}
use caddytower.Auth.Lockout.{login-locked, login-Accepted, Accepted}
use caddytower.Auth.Counting.{check_login-Counts, Counts}
use caddytower.Auth.Sessions.{logout-forgets, authenticate-Admitted, Admitted}
use caddytower.Auth.Setup.{create_initial_user-once}

abbrev crypto : Crypto
crypto = record {
  base64_encode = λ b. b;
  base64_decode = λ b. some b;
  seal = λ k n p. p;
  unseal = λ k n p. some p;
}

abbrev plain_library : Library
plain_library = record {
  crypto = crypto;
  bcrypt_hash = λ p. some p;
  bcrypt_matches = text_eq;
  totp_valid = λ code totp_secret at. text_eq code totp_secret;
  sha256_hex = λ t. t;
  uuid = λ n. n ∷ [];
  random_token = λ size n. b'a' ∷ b'b' ∷ [];
  random_nonce = λ n. none;
}

abbrev address : Text
address = codes "a@b.c"

abbrev client : Text
client = codes "10.0.0.1"

abbrev admin : ℕ → Option ℕ → UserRecord
admin failures until = record {
  id = codes "u1";
  email = address;
  password_hash = codes "pw";
  totp_secret = codes "42";
  failed_login_count = failures;
  locked_until = until;
  created_at = 0;
}

abbrev state : ℕ → Option ℕ → AuthState
state failures until =
    unfold new in
    new
      (record {
        users = admin failures until ∷ [];
        sessions = [];
        audit_log = [];
        clock = 100 * second;
        fails = λ _. false;
        executed = 0;
      })
      nil

abbrev after_login : AuthState
after_login = final (login plain_library address (codes "pw") (codes "42") client [] (state 0 none))

login_succeeds : (length after_login.db.sessions ≡ 1) × (after_login.ip_attempts client ≡ [])
unfolding login logout authenticate reject_login new text_eq find_first trim_space lower exists
    update_where keep
login_succeeds = (refl, refl)

allow_ip_bounded_example : length ((final (allow_ip client (state 0 none))).ip_attempts client) ≤ 20
unfolding new
allow_ip_bounded_example = allow_ip_bounded client client (state 0 none) (omega arith) (omega arith)

answers-history_example :
    answers client (state 0 none) (5 ∷ 6 ∷ [])
    ≡ answers_by_history 20 (5 * 60 * second) [] (5 ∷ 6 ∷ [])
unfolding new text_eq
answers-history_example = answers-history client (state 0 none) 0 (5 ∷ 6 ∷ []) refl (omega arith)

login-locked_example :
    Ends
      (λ _ _. ⊥)
      (λ _ t. (t.db.users ≡ admin 5 (some (200 * second)) ∷ []) × (t.db.sessions ≡ []))
      (login plain_library address
        (codes "pw")
        (codes "42")
        client
        []
        (state 5 (some (200 * second))))
unfolding new text_eq trim_space lower find_first
login-locked_example =
    login-locked plain_library address (codes "pw") (codes "42") client []
      (state 5 (some (200 * second))) (admin 5 (some (200 * second))) refl refl

login-Accepted_example :
    (u : UserRecord) × Accepted plain_library address (codes "pw") (codes "42") (state 0 none) u
unfolding login logout authenticate reject_login new text_eq find_first trim_space lower exists
    update_where keep
login-Accepted_example =
    login-Accepted plain_library address (codes "pw") (codes "42") client [] (state 0 none)
      after_login (codes "ab", record { id = codes "u1"; email = address; created_at = 0 }) refl

check_login-Counts_example :
    Ends
      (λ _ _. ⊥)
      (λ e t.
        Counts (state 4 none) 5 (codes "u1") (admin 4 none ∷ []) t.db.users
        × (5 ≤ 5 → e ≡ account_locked)
        × (5 < 5 → e ≡ invalid_credentials))
      (check_login plain_library (admin 4 none) (codes "pw") (codes "43") client [] (state 4 none))
unfolding new text_eq trim_space caddytower.Auth.decoded caddytower.Auth.validate_totp
check_login-Counts_example =
    check_login-Counts plain_library (admin 4 none) (codes "pw") (codes "43") (codes "42") client []
      (state 4 none) refl refl refl refl

logout-forgets_example :
    find_first
      (is_session (codes "ab"))
      (final (logout plain_library (codes "ab") after_login)).db.sessions
    ≡ none
unfolding login logout authenticate reject_login new text_eq find_first trim_space lower exists
    update_where keep
logout-forgets_example = logout-forgets plain_library (codes "ab") after_login _ refl refl

authenticate-Admitted_example :
    Admitted plain_library
      (codes "ab")
      after_login
      (record { id = codes "u1"; email = address; created_at = 0 })
unfolding login logout authenticate reject_login new text_eq find_first trim_space lower exists
    update_where keep
authenticate-Admitted_example =
    authenticate-Admitted plain_library (codes "ab") after_login
      (final (authenticate plain_library (codes "ab") after_login)) _ refl

create_initial_user-once_example :
    Ends
      (λ _ _. ⊥)
      (λ _ t. (t.db.users ≡ admin 0 none ∷ []) × (t.db.sessions ≡ []))
      (create_initial_user plain_library address
        (codes "password1234")
        (codes "password1234")
        (codes "42")
        (codes "42")
        client
        []
        (state 0 none))
unfolding new
create_initial_user-once_example =
    create_initial_user-once plain_library address (codes "password1234") (codes "password1234")
      (codes "42") (codes "42") client [] (state 0 none) (omega arith)
