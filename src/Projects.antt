-- ===== src/Projects.antt =====
-- internal/projects/service.go: projects, settings, and what deploying one needs of the rest.
pub mod Deploy
pub mod Routes
pub mod Ports
pub mod Inputs
use caddytower.Prelude.{
  ℕ, ◌*◌, leb, ◌==◌, Bool, true, false, not, ◌&&◌, List, [], ◌∷◌, ◌++◌, if◌then◌else◌,
}
use caddytower.Prelude.Int.{ℤ}
use caddytower.Prelude.Texts.{Text, codes, text_eq, trim_space, has_prefix}
use caddytower.Prelude.Effects.{M, Outcome, ok, fail}
use caddytower.Caddy.{is_blank}
use caddytower.Store.Auth.{StoreError}
use caddytower.Store.Deploys.{Deploys, DeployTable}

pub record ProjectPort : Type 0 where
  pub proto : Text
  pub host_port : ℕ
  pub container_port : ℕ

pub record ProjectMount : Type 0 where
  pub source : Text
  pub target : Text
  pub read_only : Bool

pub record ProjectHttpRoute : Type 0 where
  pub hostname : Text
  pub match_type : Text
  pub match_value : Text
  pub strip_prefix : Bool
  pub rewrite_prefix : Text
  pub priority : ℤ

pub record DbAttachment : Type 0 where
  pub env_var_name : Text
  pub connection_hint : Text

pub record Project : Type 0 where
  pub id : Text
  pub slug : Text
  pub kind : Text
  pub image_ref : Text
  pub internal_port : ℕ
  pub full_domain : Text
  pub custom_domains : List Text
  pub watchtower_enabled : Bool
  pub env : List (Text × Text)
  pub db_attachments : List DbAttachment
  pub mounts : List ProjectMount
  pub ports : List ProjectPort
  pub http_routes : List ProjectHttpRoute
  pub container_name : Text
  pub health_check_path : Text
  pub health_check_timeout : ℕ

pub record Settings : Type 0 where
  pub root_domain : Text
  pub origin_hostname : Text
  pub cloudflare_zone_id : Text
  pub cloudflare_proxied : Bool

pub record DeployRequest : Type 0 where
  pub trigger : Text
  pub actor : Text
  pub disable_auto_rollback : Bool

pub record DeployEvent : Type 0 where
  pub project_id : Text
  pub stage : Text
  pub status : Text

-- The specification of the container: image, environment, labels, mounts, network and ports.
pub record ContainerSpec : Type 0 where
  pub name : Text
  pub image : Text
  pub env : List (Text × Text)
  pub labels : List (Text × Text)
  pub mounts : List ProjectMount
  pub network : Text
  pub exposed_port : List ℕ
  pub restart_policy : Text
  pub published_ports : List ProjectPort

pub data Failure : Type 0 where
  no_root_domain : Failure
  store : StoreError → Failure
  other : Text → Failure
  unhealthy : ℕ → ℕ → Text → Failure
  out_of_attempts : Failure
  rolled_back : Failure → Failure
  rollback_failed : Failure → Failure → Failure

-- The parts that a deployment calls, each with the state that it works on in `World`: Docker
-- (`pull_image`, `recreate_container`), the HTTP client and the clock of the health check, Caddy,
-- Cloudflare, and the tables of projects and settings. `message` is the text of an error.
pub record Parts : Type 1 where
  pub World : Type 0
  pub has_docker : Bool
  pub pull_image : Text → M World Text (Unit {0})
  pub recreate_container : ContainerSpec → M World Text Text
  pub check_http : Text → ℕ → M World Text (Unit {0})
  pub now : World → ℕ
  pub wait : ℕ → M World Text (Unit {0})
  pub reconcile_caddy : M World Text (Unit {0})
  pub upsert_cloudflare : Project → Settings → M World Text (Unit {0})
  pub get_project : Text → M World Text (Project × Settings)
  pub set_image_ref : Text → Text → M World Text (Unit {0})
  pub health_url : Project → Text
  pub message : Failure → Text

-- `Service`, as far as a deployment changes it. `events` are the emitted events, the last one first.
pub record ServiceState (World : Type 0) : Type 0 where
  pub table : DeployTable
  pub events : List DeployEvent
  pub world : World

abbrev pub second : ℕ
second = 1000000000

unfoldable pub normalized_health_timeout : Text → ℕ → ℕ
unfolding trim_space text_eq
normalized_health_timeout path timeout =
    if is_blank path then 0 else if timeout == 0 then 5 else timeout

unfoldable pub should_pull_image : Text → Bool
unfolding has_prefix trim_space
should_pull_image image = not (has_prefix (trim_space image) (codes "sha256:"))

unfoldable pub fallback_string : Text → Text → Text
unfolding text_eq trim_space
fallback_string value fallback = if is_blank value then fallback else trim_space value

abbrev pub is_web : Project → Bool
is_web p = text_eq p.kind (codes "web")

abbrev pub put_env : Text → Text → List (Text × Text) → List (Text × Text)
put_env key value [] = (key, value) ∷ []
put_env key value ((k, v) ∷ rest) =
    let others = put_env key value rest in
    if text_eq k key then (key, value) ∷ rest else (k, v) ∷ others

-- An attachment's variable replaces one of the project with the same name (`runtimeEnv`).
unfoldable pub attach_env : List DbAttachment → List (Text × Text) → List (Text × Text)
unfolding text_eq
attach_env [] env = env
attach_env (a ∷ rest) env = attach_env rest (put_env a.env_var_name a.connection_hint env)

unfoldable pub runtime_env : Project → List (Text × Text)
unfolding attach_env
runtime_env p = attach_env p.db_attachments p.env

abbrev pub managed_network_name : Text
managed_network_name = codes "edge"

unfoldable pub container_spec : Project → ContainerSpec
unfolding runtime_env text_eq
container_spec p = record {
  name = p.container_name;
  image = p.image_ref;
  env = runtime_env p;
  labels =
      (codes "caddytower.managed", codes "true")
      ∷ (codes "caddytower.project", p.slug)
      ∷ (codes "caddytower.type", p.kind)
      ∷ (if p.watchtower_enabled
          then (codes "com.centurylinklabs.watchtower.enable", codes "true") ∷ []
          else []);
  mounts = p.mounts;
  network = managed_network_name;
  exposed_port = if is_web p then p.internal_port ∷ [] else [];
  published_ports = if is_web p then [] else p.ports;
  restart_policy = codes "unless-stopped";
}
