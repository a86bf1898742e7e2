-- ===== src/Projects/Inputs/Form.antt =====
-- internal/projects/service.go: `recordFromInput`, which checks a project's form and makes the record.
-- The identifier and the webhook secret that it draws are arguments.
use caddytower.Prelude.{
  ℕ, leb, ◌==◌, Bool, true, false, not, ◌&&◌, ◌||◌, Option, List, [], ◌∷◌, is_empty, length,
  if◌then◌else◌,
}
use caddytower.Prelude.Int.{ℤ, pos, negsuc, ltb_ℤ}
use caddytower.Prelude.Results.{Result, value, error, return, ◌>>=◌, ◌>>◌}
use caddytower.Prelude.Texts.{
  Text, codes, text_eq, trim_space, to_lower, lower, has_prefix, has_suffix, contains_char,
}
use caddytower.Secrets
use caddytower.Secrets.{Crypto, SecretError}
use caddytower.Projects.{ProjectMount, ProjectHttpRoute, ProjectPort, normalized_health_timeout}
use caddytower.Projects.Ports
use caddytower.Projects.Ports.{PortError, Parsed, parse_port_mappings}
use caddytower.Projects.Inputs.{InputError, is_absolute, parse_mounts_text, parse_http_routes_text}
use caddytower.Projects.Inputs.Env.{Env, encode_env, parse_env_text}

pub record WebProjectInput : Type 0 where
  pub kind : Text
  pub id : Text
  pub name : Text
  pub slug : Text
  pub image_ref : Text
  pub github_repo_full_name : Text
  pub github_installation_id : ℤ
  pub github_default_branch : Text
  pub subdomain : Text
  pub internal_port : ℤ
  pub port_mappings_text : Text
  pub watchtower_enabled : Bool
  pub env_text : Text
  pub mounts_text : Text
  pub http_routes_text : Text
  pub health_check_path : Text
  pub health_check_timeout : ℤ

pub record ProjectRecord : Type 0 where
  pub id : Text
  pub slug : Text
  pub name : Text
  pub kind : Text
  pub image_ref : Text
  pub github_repo_full_name : Text
  pub github_installation_id : ℤ
  pub github_default_branch : Text
  pub internal_port : ℕ
  pub subdomain : Text
  pub watchtower_enabled : Bool
  pub webhook_secret : Text
  pub env : Env
  pub mounts : List ProjectMount
  pub ports : List ProjectPort
  pub http_routes : List ProjectHttpRoute
  pub health_check_path : Text
  pub health_check_timeout : ℕ

pub data FormError : Type 0 where
  project_type name_required slug_pattern image_required : FormError
  subdomain_required bad_subdomain bad_internal_port : FormError
  bad_health_path bad_health_timeout routes_for_web_only : FormError
  input : InputError → FormError
  port : PortError → FormError
  secret : SecretError → FormError

abbrev pub check : Bool → FormError → Result FormError (Unit {0})
check holds e = if holds then value tt else error e

abbrev pub of_input : {A : Type 0} → Result InputError A → Result FormError A
of_input (value a) = value a
of_input (error e) = error (FormError.input e)

abbrev pub of_ports : Parsed → Result FormError (List ProjectPort)
of_ports (Ports.accepted ps) = value ps
of_ports (Ports.refused e) = error (FormError.port e)

abbrev pub of_secrets : Secrets.Result Env → Result FormError Env
of_secrets (Secrets.value env) = value env
of_secrets (Secrets.error e) = error (FormError.secret e)

-- A lower-case letter or a digit.
abbrev pub is_slug_start : ℕ → Bool
is_slug_start c = (leb b'a' c && leb c b'z') || (leb b'0' c && leb c b'9')

abbrev all_slug : Text → Bool
all_slug [] = true
all_slug (c ∷ s) = (is_slug_start c || c == b'-') && all_slug s

-- `^[a-z0-9][a-z0-9-]{1,62}$`.
unfoldable pub matches_slug : Text → Bool
matches_slug [] = false
matches_slug (c ∷ s) = is_slug_start c && all_slug s && leb 1 (length s) && leb (length s) 62

unfoldable pub is_kind : Text → Bool
unfolding text_eq
is_kind k = text_eq k (codes "web") || text_eq k (codes "tcp") || text_eq k (codes "udp")

unfoldable pub project_kind : Text → Text
unfolding trim_space lower
project_kind raw = let k = trim_space (to_lower raw) in if is_empty k then codes "web" else k

unfoldable pub record_slug : Text → Text → Text
unfolding trim_space lower
record_slug existing raw = if is_empty existing then trim_space (to_lower raw) else existing

abbrev pub fair_subdomain : Text → Bool
unfolding has_prefix has_suffix contains_char
fair_subdomain s =
    not (contains_char b' ' s || has_prefix s (codes ".") || has_suffix s (codes "."))

abbrev pub in_range : ℤ → ℤ → ℤ → Bool
in_range low high n = not (ltb_ℤ n low) && not (ltb_ℤ high n)

abbrev pub nat_of : ℤ → ℕ
nat_of (pos n) = n
nat_of (negsuc n) = 0

-- What a project exposes: the port inside, the published ports and the routes.
pub record Exposure : Type 0 where
  pub inside : ℕ
  pub published : List ProjectPort
  pub routes : List ProjectHttpRoute

unfoldable pub check_health_input : Text → ℤ → Result FormError (Unit {0})
unfolding trim_space has_prefix
check_health_input path timeout =
    if is_empty (trim_space path)
    then value tt
    else check (is_absolute (trim_space path)) bad_health_path
      >> check (in_range (pos 0) (pos 30) timeout) bad_health_timeout

unfoldable pub web_exposure : WebProjectInput → Text → Result FormError Exposure
unfolding check_health_input parse_http_routes_text contains_char has_prefix has_suffix
web_exposure i subdomain = do
  check (not (is_empty subdomain)) subdomain_required
  check (fair_subdomain subdomain) bad_subdomain
  check (in_range (pos 1) (pos 65535) i.internal_port) bad_internal_port
  check_health_input i.health_check_path i.health_check_timeout
  routes ← of_input (parse_http_routes_text i.http_routes_text)
  return (record { inside = nat_of i.internal_port; published = []; routes = routes })

unfoldable pub port_exposure : WebProjectInput → Text → Result FormError Exposure
unfolding parse_port_mappings trim_space
port_exposure i kind = do
  check (is_empty (trim_space i.http_routes_text)) routes_for_web_only
  ports ← of_ports (parse_port_mappings i.port_mappings_text kind)
  return (record { inside = 0; published = ports; routes = [] })

unfoldable pub exposure_of : WebProjectInput → Text → Text → Result FormError Exposure
unfolding web_exposure port_exposure text_eq
exposure_of i kind subdomain =
    if text_eq kind (codes "web") then web_exposure i subdomain else port_exposure i kind

-- What the record draws: an identifier, the two parts of a webhook secret, and the nonces.
pub record Draws : Type 0 where
  pub uuid : Text
  pub random_secret : Text
  pub random_nonce : ℕ → Option Text

abbrev pub project_record :
    WebProjectInput
    → Draws
    → Text
    → Text
    → Text
    → Exposure
    → List ProjectMount
    → Env
    → ProjectRecord
unfolding trim_space normalized_health_timeout lower
project_record i d kind slug subdomain x mounts env = record {
  id = if is_empty i.id then d.uuid else i.id;
  slug = slug;
  name = trim_space i.name;
  kind = kind;
  image_ref = trim_space i.image_ref;
  github_repo_full_name = trim_space i.github_repo_full_name;
  github_installation_id = i.github_installation_id;
  github_default_branch = trim_space i.github_default_branch;
  internal_port = x.inside;
  subdomain = subdomain;
  watchtower_enabled = i.watchtower_enabled;
  webhook_secret = d.random_secret;
  env = env;
  mounts = mounts;
  ports = x.published;
  http_routes = x.routes;
  health_check_path = trim_space i.health_check_path;
  health_check_timeout =
      normalized_health_timeout (trim_space i.health_check_path) (nat_of i.health_check_timeout);
}

module _ (c : Crypto) (s : Secrets.Service) where
  unfoldable pub record_from_input : WebProjectInput → Draws → Text → Result FormError ProjectRecord
  unfolding is_kind project_kind record_slug matches_slug exposure_of encode_env parse_env_text
      parse_mounts_text trim_space lower text_eq normalized_health_timeout
  record_from_input i d existing_slug = do
    check (is_kind (project_kind i.kind)) project_type
    check (not (is_empty (trim_space i.name))) name_required
    check (matches_slug (record_slug existing_slug i.slug)) slug_pattern
    check (not (is_empty (trim_space i.image_ref))) image_required
    mounts ← of_input (parse_mounts_text i.mounts_text)
    exposure ← exposure_of i (project_kind i.kind) (trim_space (to_lower i.subdomain))
    env ← of_secrets (encode_env c s d.random_nonce 0 (parse_env_text i.env_text))
    return (
        project_record i d (project_kind i.kind) (record_slug existing_slug i.slug)
          (trim_space (to_lower i.subdomain)) exposure mounts env)
