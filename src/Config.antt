-- ===== src/Config.antt =====
-- internal/config/config.go: the configuration that is read from the environment. `net/url` and
-- `net.ParseIP` are parameters.
pub mod Accepted
mod Tests
use caddytower.Prelude.{
  ℕ, Bool, true, false, not, ◌&&◌, ◌||◌, ◌==◌, Option, none, some, List, [], ◌∷◌, is_empty, exists,
  if◌then◌else◌,
}
use caddytower.Prelude.Int.{ℤ, pos, negsuc, ltb_ℤ}
use caddytower.Prelude.Decimal.{atoi, format_int}
use caddytower.Prelude.Results.{Result, value, error, return, ◌>>=◌, ◌>>◌}
use caddytower.Caddy.{is_blank}
use caddytower.Prelude.Texts.{
  Text, codes, text_eq, trim_space, trim_left, trim_right, to_lower, split,
}

pub record Config : Type 0 where
  pub http_addr : Text
  pub public_base_url : Text
  pub data_dir : Text
  pub caddy_admin_url : Text
  pub root_domain : Text
  pub docker_host : Text
  pub master_key : Text
  pub github_app_id : ℤ
  pub github_app_slug : Text
  pub github_app_private_key_path : Text
  pub github_webhook_secret : Text
  pub github_api_base_url : Text
  pub github_web_base_url : Text
  pub backups_enabled : Bool
  pub backups_retention_days : ℤ
  pub backups_schedule_utc : Text
  pub backups_include_engine_dumps : Bool
  pub vps_warnings_enabled : Bool
  pub vps_ram_free_warn_percent : ℤ
  pub vps_disk_free_warn_percent : ℤ
  pub vps_warning_check_minutes : ℤ
  pub vps_warning_cooldown_minutes : ℤ
  pub smtp_host : Text
  pub smtp_port : ℤ
  pub smtp_username : Text
  pub smtp_password : Text
  pub smtp_from : Text
  pub smtp_to : Text

-- What is wrong with the variable that is named.
pub data Reason : Type 0 where
  must_not_be_empty must_be_a_boolean must_be_an_integer invalid_url scheme_and_host : Reason
  must_use_https required_for_public must_be_set clock_format out_of_range : Reason

pub data ConfigError : Type 0 where
  variable : Text → Reason → ConfigError

-- A parsed URL: `Scheme`, `Host` and `Hostname()`.
pub record Url : Type 0 where
  pub scheme : Text
  pub host : Text
  pub hostname : Text

-- `url.Parse`, and whether `net.ParseIP` reads a loopback address.
pub record Net : Type 0 where
  pub parse_url : Text → Option Url
  pub is_loopback : Text → Bool

-- The environment: `none` for a variable that is not set.
abbrev pub Lookup : Type 0
Lookup = Text → Option Text

abbrev non_empty_or : Text → Text → Text
non_empty_or fallback s = if is_empty s then fallback else s

unfoldable pub env_or_default : Lookup → Text → Text → Text
unfolding trim_space
env_or_default lookup key fallback = elim (lookup key) [
  | none ↦ fallback
  | some v ↦ non_empty_or fallback (trim_space v)
]

abbrev is_one_of : Text → List Text → Bool
is_one_of s words = exists (text_eq s) words

bool_of : Text → Bool → Text → Result ConfigError Bool
unfolding exists text_eq
bool_of key fallback v =
    if is_empty v
    then value fallback
    else if is_one_of v (codes "1" ∷ codes "true" ∷ codes "yes" ∷ codes "on" ∷ [])
    then value true
    else if is_one_of v (codes "0" ∷ codes "false" ∷ codes "no" ∷ codes "off" ∷ [])
    then value false
    else error (variable key must_be_a_boolean)

unfoldable pub env_bool_or_default : Lookup → Text → Bool → Result ConfigError Bool
unfolding bool_of trim_space
env_bool_or_default lookup key fallback = elim (lookup key) [
  | none ↦ value fallback
  | some v ↦ bool_of key fallback (trim_space (to_lower v))
]

abbrev parsed_int : Text → Option ℤ → Result ConfigError ℤ
parsed_int key none = error (variable key must_be_an_integer)
parsed_int key (some n) = value n

int_or : Text → ℤ → Text → Result ConfigError ℤ
unfolding atoi
int_or key fallback v = if is_empty v then value fallback else parsed_int key (atoi v)

-- `envIntOrDefault`, and `envInt64OrDefault` as `int` has 64 bits.
unfoldable pub env_int_or_default : Lookup → Text → ℤ → Result ConfigError ℤ
unfolding int_or trim_space
env_int_or_default lookup key fallback = elim (lookup key) [
  | none ↦ value fallback
  | some v ↦ int_or key fallback (trim_space v)
]

abbrev pub check : Bool → Text → Reason → Result ConfigError (Unit {0})
check holds key reason = if holds then value tt else error (variable key reason)

abbrev pub with_url :
    Text → Option Url → (Url → Result ConfigError (Unit {0})) → Result ConfigError (Unit {0})
with_url key none k = error (variable key invalid_url)
with_url key (some u) k = k u

abbrev pub is_complete : Url → Bool
is_complete u = not (is_empty u.scheme) && not (is_empty u.host)

unfoldable pub validate_url : Net → Text → Text → Result ConfigError (Unit {0})
validate_url net key raw =
    with_url key (net.parse_url raw) (λ u. check (is_complete u) key scheme_and_host)

abbrev is_bracket : ℕ → Bool
is_bracket c = c == b'[' || c == b']'

unfoldable pub is_local_host : Net → Text → Bool
unfolding text_eq trim_left trim_right
is_local_host net host =
    let normalized = trim_right is_bracket (trim_left is_bracket (to_lower host)) in
    text_eq normalized (codes "localhost") || net.is_loopback normalized

abbrev pub exposed : Net → Text → Url → Result ConfigError (Unit {0})
exposed net master_key u = if is_local_host net u.hostname then value tt else do
  check (text_eq u.scheme (codes "https")) (codes "CADDYTOWER_PUBLIC_BASE_URL") must_use_https
  check (not (is_blank master_key)) (codes "CADDYTOWER_MASTER_KEY") required_for_public

unfoldable pub validate_public_exposure : Net → Text → Text → Result ConfigError (Unit {0})
unfolding is_local_host text_eq
validate_public_exposure net url master_key =
    with_url (codes "CADDYTOWER_PUBLIC_BASE_URL") (net.parse_url url) (exposed net master_key)

unfoldable pub is_set : Text → Bool
unfolding text_eq trim_space
is_set v = not (is_blank v) && not (text_eq v (codes "0"))

unfoldable pub validate_github_app_config : Config → Result ConfigError (Unit {0})
unfolding is_set format_int exists
validate_github_app_config c =
    if not (
      exists is_set (
        format_int c.github_app_id
        ∷ c.github_app_slug
        ∷ c.github_app_private_key_path
        ∷ c.github_webhook_secret
        ∷ []))
    then value tt
    else do
      check (ltb_ℤ (pos 0) c.github_app_id) (codes "CADDYTOWER_GITHUB_APP_ID") must_be_set
      check (not (is_empty c.github_app_slug)) (codes "CADDYTOWER_GITHUB_APP_SLUG") must_be_set
      check (not (is_empty c.github_app_private_key_path))
          (codes "CADDYTOWER_GITHUB_APP_PRIVATE_KEY_PATH") must_be_set
      check (not (is_empty c.github_webhook_secret)) (codes "CADDYTOWER_GITHUB_WEBHOOK_SECRET")
          must_be_set

unfoldable pub github_configured : Config → Bool
github_configured c =
    ltb_ℤ (pos 0) c.github_app_id
    && not (is_empty c.github_app_slug)
    && not (is_empty c.github_app_private_key_path)
    && not (is_empty c.github_webhook_secret)

-- A number that is read and lies in a range.
abbrev pub within : ℤ → ℤ → Option ℤ → Bool
within low high none = false
within low high (some n) = not (ltb_ℤ n low) && not (ltb_ℤ high n)

abbrev clock_parts : Text → List Text → Result ConfigError (Unit {0})
clock_parts key (hour ∷ minute ∷ []) =
    check (within (pos 0) (pos 23) (atoi hour)) key clock_format
    >> check (within (pos 0) (pos 59) (atoi minute)) key clock_format
clock_parts key _ = error (variable key clock_format)

unfoldable pub validate_clock : Text → Text → Result ConfigError (Unit {0})
unfolding atoi split trim_space
validate_clock key raw = clock_parts key (split b':' (trim_space raw))

unfoldable pub validate_percent : Text → ℤ → Result ConfigError (Unit {0})
validate_percent key n = check (within (pos 1) (pos 99) (some n)) key out_of_range

abbrev at_least_1 : Text → ℤ → Result ConfigError (Unit {0})
at_least_1 key n = check (not (ltb_ℤ n (pos 1))) key out_of_range

-- The checks of the backups, the monitor and the mail server.
unfoldable pub validate_tail : Config → Result ConfigError Config
unfolding validate_clock validate_percent
validate_tail c = do
  at_least_1 (codes "CADDYTOWER_BACKUPS_RETENTION_DAYS") c.backups_retention_days
  validate_clock (codes "CADDYTOWER_BACKUPS_SCHEDULE_UTC") c.backups_schedule_utc
  validate_percent (codes "CADDYTOWER_VPS_RAM_FREE_WARN_PERCENT") c.vps_ram_free_warn_percent
  validate_percent (codes "CADDYTOWER_VPS_DISK_FREE_WARN_PERCENT") c.vps_disk_free_warn_percent
  at_least_1 (codes "CADDYTOWER_VPS_WARNING_CHECK_MINUTES") c.vps_warning_check_minutes
  at_least_1 (codes "CADDYTOWER_VPS_WARNING_COOLDOWN_MINUTES") c.vps_warning_cooldown_minutes
  check (within (pos 1) (pos 65535) (some c.smtp_port)) (codes "CADDYTOWER_SMTP_PORT") out_of_range
  return c

-- The checks of `LoadFromLookup`, in their order.
unfoldable pub validate : Net → Config → Result ConfigError Config
unfolding validate_url validate_public_exposure validate_github_app_config validate_tail trim_space
validate net c = do
  check (not (is_blank c.http_addr)) (codes "CADDYTOWER_HTTP_ADDR") must_not_be_empty
  validate_url net (codes "CADDYTOWER_PUBLIC_BASE_URL") c.public_base_url
  validate_public_exposure net c.public_base_url c.master_key
  validate_url net (codes "CADDYTOWER_CADDY_ADMIN_URL") c.caddy_admin_url
  validate_url net (codes "CADDYTOWER_GITHUB_API_BASE_URL") c.github_api_base_url
  validate_url net (codes "CADDYTOWER_GITHUB_WEB_BASE_URL") c.github_web_base_url
  validate_github_app_config c
  validate_tail c

-- A variable whose blanks are cut off.
abbrev trimmed : Lookup → Text → Text
trimmed lookup key = trim_space (env_or_default lookup key [])

-- The configuration with the numbers and switches that are read.
abbrev pub configuration : Lookup → ℤ → Bool → Bool → ℤ → Bool → ℤ → ℤ → ℤ → ℤ → ℤ → Config
configuration lookup app_id backups dumps days warn ram disk minutes cooldown port = record {
  http_addr = env_or_default lookup (codes "CADDYTOWER_HTTP_ADDR") (codes ":8080");
  public_base_url =
      env_or_default lookup (codes "CADDYTOWER_PUBLIC_BASE_URL") (codes "http://localhost:8080");
  data_dir = env_or_default lookup (codes "CADDYTOWER_DATA_DIR") (codes "./var");
  caddy_admin_url =
      env_or_default lookup (codes "CADDYTOWER_CADDY_ADMIN_URL") (codes "http://shared-caddy:2019");
  root_domain = trimmed lookup (codes "CADDYTOWER_ROOT_DOMAIN");
  docker_host = trimmed lookup (codes "DOCKER_HOST");
  master_key = trimmed lookup (codes "CADDYTOWER_MASTER_KEY");
  github_app_id = app_id;
  github_app_slug = trimmed lookup (codes "CADDYTOWER_GITHUB_APP_SLUG");
  github_app_private_key_path = trimmed lookup (codes "CADDYTOWER_GITHUB_APP_PRIVATE_KEY_PATH");
  github_webhook_secret = trimmed lookup (codes "CADDYTOWER_GITHUB_WEBHOOK_SECRET");
  github_api_base_url =
      env_or_default lookup (codes "CADDYTOWER_GITHUB_API_BASE_URL")
        (codes "https://api.github.com");
  github_web_base_url =
      env_or_default lookup (codes "CADDYTOWER_GITHUB_WEB_BASE_URL") (codes "https://github.com");
  backups_enabled = backups;
  backups_retention_days = days;
  backups_schedule_utc =
      trim_space (env_or_default lookup (codes "CADDYTOWER_BACKUPS_SCHEDULE_UTC") (codes "02:30"));
  backups_include_engine_dumps = dumps;
  vps_warnings_enabled = warn;
  vps_ram_free_warn_percent = ram;
  vps_disk_free_warn_percent = disk;
  vps_warning_check_minutes = minutes;
  vps_warning_cooldown_minutes = cooldown;
  smtp_host = trimmed lookup (codes "CADDYTOWER_SMTP_HOST");
  smtp_port = port;
  smtp_username = trimmed lookup (codes "CADDYTOWER_SMTP_USERNAME");
  smtp_password = trimmed lookup (codes "CADDYTOWER_SMTP_PASSWORD");
  smtp_from = trimmed lookup (codes "CADDYTOWER_SMTP_FROM");
  smtp_to = trimmed lookup (codes "CADDYTOWER_SMTP_TO");
}

unfoldable pub load_from_lookup : Net → Lookup → Result ConfigError Config
unfolding env_or_default env_int_or_default env_bool_or_default trim_space validate
load_from_lookup net lookup = do
  app_id ← env_int_or_default lookup (codes "CADDYTOWER_GITHUB_APP_ID") (pos 0)
  backups ← env_bool_or_default lookup (codes "CADDYTOWER_BACKUPS_ENABLED") false
  dumps ← env_bool_or_default lookup (codes "CADDYTOWER_BACKUPS_INCLUDE_ENGINE_DUMPS") true
  days ← env_int_or_default lookup (codes "CADDYTOWER_BACKUPS_RETENTION_DAYS") (pos 14)
  warn ← env_bool_or_default lookup (codes "CADDYTOWER_VPS_WARNINGS_ENABLED") true
  ram ← env_int_or_default lookup (codes "CADDYTOWER_VPS_RAM_FREE_WARN_PERCENT") (pos 15)
  disk ← env_int_or_default lookup (codes "CADDYTOWER_VPS_DISK_FREE_WARN_PERCENT") (pos 15)
  minutes ← env_int_or_default lookup (codes "CADDYTOWER_VPS_WARNING_CHECK_MINUTES") (pos 15)
  cooldown ← env_int_or_default lookup (codes "CADDYTOWER_VPS_WARNING_COOLDOWN_MINUTES") (pos 360)
  port ← env_int_or_default lookup (codes "CADDYTOWER_SMTP_PORT") (pos 587)
  validate net (configuration lookup app_id backups dumps days warn ram disk minutes cooldown port)
