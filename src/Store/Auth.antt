-- ===== src/Store/Auth.antt =====
-- internal/store/auth.go: the tables `users`, `sessions` and `audit_log`. Each call executes one SQL
-- statement; whether the database executes it is decided by `fails` at the statement's number.
use caddytower.Prelude.{
  ℕ, ◌+◌, Bool, ◌&&◌, ◌||◌, not, Option, none, some, List, [], ◌∷◌, ◌++◌, length, keep, exists,
  find_first, update_where, leb, if◌then◌else◌,
}
use caddytower.Prelude.Texts.{Text, text_eq, codes}
use caddytower.Prelude.Effects.{M, ok, fail, ◌>>=◌, ◌>>◌}

pub record UserRecord : Type 0 where
  pub id : Text
  pub email : Text
  pub password_hash : Text
  pub totp_secret : Text
  pub failed_login_count : ℕ
  pub locked_until : Option ℕ
  pub created_at : ℕ

pub record SessionRecord : Type 0 where
  pub token : Text
  pub user_id : Text
  pub expires_at : ℕ
  pub ip : Text
  pub user_agent : Text
  pub created_at : ℕ

pub record AuditRecord : Type 0 where
  pub id : Text
  pub user_id : Text
  pub action : Text
  pub target : Text

-- `clock` is the time that the program and the database read.
pub record AuthDb : Type 0 where
  pub users : List UserRecord
  pub sessions : List SessionRecord
  pub audit_log : List AuditRecord
  pub clock : ℕ
  pub fails : ℕ → Bool
  pub executed : ℕ

pub data StoreError : Type 0 where
  not_found database constraint : StoreError

abbrev pub Db : Type 0 → Type 0
Db A = M AuthDb StoreError A

unfoldable pub statement : Db (Unit {0})
statement d =
    let d' = record d { executed = d.executed + 1 } in
    if d.fails d.executed then fail database d' else ok tt d'

-- Reads and writes of the tables once the statement is executed.
abbrev pub read : {A : Type 0} → (AuthDb → A) → Db A
read f d = ok (f d) d

abbrev pub write : (AuthDb → AuthDb) → Db (Unit {0})
write f d = ok tt (f d)

abbrev pub reject_if : (AuthDb → Bool) → Db (Unit {0})
reject_if test d = if test d then fail constraint d else ok tt d

abbrev pub found : {A : Type 0} → Option A → Db A
found none d = fail not_found d
found (some a) d = ok a d

abbrev pub is_user : Text → UserRecord → Bool
is_user id u = text_eq u.id id

abbrev pub has_email : Text → UserRecord → Bool
has_email email u = text_eq u.email email

abbrev pub is_session : Text → SessionRecord → Bool
is_session token s = text_eq s.token token

unfoldable pub user_count : Db ℕ
unfolding statement
user_count = do statement; read (λ d. length d.users)

-- `id` is the primary key, and `email` is unique.
unfoldable pub create_user : UserRecord → Db (Unit {0})
unfolding statement
create_user user = do
  statement
  reject_if (λ d. exists (is_user user.id) d.users || exists (has_email user.email) d.users)
  write (λ d. record d { users = d.users ++ record user { created_at = d.clock } ∷ [] })

unfoldable pub get_user : (UserRecord → Bool) → Db UserRecord
unfolding statement
get_user query = do statement; row ← read (λ d. find_first query d.users); found row

unfoldable pub get_user_by_email : Text → Db UserRecord
unfolding get_user
get_user_by_email email = get_user (has_email email)

unfoldable pub get_user_by_id : Text → Db UserRecord
unfolding get_user
get_user_by_id id = get_user (is_user id)

abbrev pub set_failures : ℕ → Option ℕ → UserRecord → UserRecord
set_failures n until u = record u { failed_login_count = n; locked_until = until }

unfoldable pub update_user_login_failures : Text → ℕ → Option ℕ → Db (Unit {0})
unfolding statement
update_user_login_failures id n until = do
  statement
  write (λ d. record d { users = update_where (is_user id) (set_failures n until) d.users })

unfoldable pub clear_user_login_failures : Text → Db (Unit {0})
unfolding statement
clear_user_login_failures id = do
  statement
  write (λ d. record d { users = update_where (is_user id) (set_failures 0 none) d.users })

-- `token` is the primary key, and `user_id` refers to a user.
unfoldable pub create_session : SessionRecord → Db (Unit {0})
unfolding statement
create_session s = do
  statement
  reject_if
      (λ d. exists (is_session s.token) d.sessions || not (exists (is_user s.user_id) d.users))
  write (λ d. record d { sessions = d.sessions ++ record s { created_at = d.clock } ∷ [] })

unfoldable pub get_session : Text → Db SessionRecord
unfolding statement
get_session token = do
  statement
  row ← read (λ d. find_first (is_session token) d.sessions)
  found row

unfoldable pub delete_session : Text → Db (Unit {0})
unfolding statement
delete_session token = do
  statement
  write (λ d. record d { sessions = keep (λ s. not (is_session token s)) d.sessions })

abbrev pub is_alive : ℕ → SessionRecord → Bool
is_alive now s = not (leb s.expires_at now)

unfoldable pub delete_expired_sessions : ℕ → Db (Unit {0})
unfolding statement
delete_expired_sessions now = do
  statement
  write (λ d. record d { sessions = keep (is_alive now) d.sessions })

-- An identifier that is taken, or a user that does not exist. An empty user is stored as NULL, and
-- refers to nobody.
abbrev pub audit_refused : Text → Text → AuthDb → Bool
audit_refused id user_id d =
    exists (λ row. text_eq row.id id) d.audit_log
    || (not (text_eq user_id (codes "")) && not (exists (is_user user_id) d.users))

abbrev pub append_audit : AuditRecord → AuthDb → AuthDb
append_audit row d = record d { audit_log = d.audit_log ++ row ∷ [] }

-- The payload is left out.
unfoldable pub insert_audit_log : Text → Text → Text → Text → Db (Unit {0})
unfolding statement
insert_audit_log id user_id action target = do
  statement
  reject_if (audit_refused id user_id)
  write (append_audit (record { id = id; user_id = user_id; action = action; target = target }))
