-- ===== src/Docker.antt =====
-- internal/dockerx/service.go: the containers and networks that the program asks Docker for. The API of
-- Docker is a parameter, and so is the reading of a port (`nat.NewPort`).
pub mod Documented
pub mod Requests
pub mod Recreate
mod Tests
use caddytower.Prelude.{
  ℕ, ◌+◌, ◌-◌, ◌%◌, ltb, ◌==◌, Bool, true, false, not, ◌&&◌, ◌||◌, Option, none, some, List, [],
  ◌∷◌, ◌++◌, map, is_empty, exists, if◌then◌else◌,
}
use caddytower.Prelude.Decimal.{two_to_64}
use caddytower.Prelude.Sorting.{sort}
use caddytower.Prelude.Effects.{M, Outcome, ok, fail, return, throw, ◌>>=◌, ◌>>◌}
use caddytower.Prelude.Texts.{
  Text, codes, text_eq, text_lt, trim_space, to_lower, lower, split, cut, equal_fold,
}
use caddytower.Caddy.{is_blank}

pub record PortBinding : Type 0 where
  pub container_port : Text
  pub host_port : Text
  pub host_ip : Text
  pub protocol : Text

pub record Mount : Type 0 where
  pub source : Text
  pub target : Text
  pub read_only : Bool

pub record ContainerSpec : Type 0 where
  pub name : Text
  pub image : Text
  pub command : List Text
  pub env : List (Text × Text)
  pub labels : List (Text × Text)
  pub network : Text
  pub mounts : List Mount
  pub exposed_ports : List Text
  pub published_ports : List PortBinding
  pub restart_policy : Text
  pub auto_remove : Bool

-- The configurations that `ContainerCreate` is given.
pub record Request : Type 0 where
  pub image : Text
  pub command : List Text
  pub env : List Text
  pub labels : List (Text × Text)
  pub exposed_ports : List Text
  pub binds : List Text
  pub auto_remove : Bool
  pub port_bindings : List (Text × PortBinding)
  pub restart_policy : Text
  pub network_mode : Text
  pub endpoints : List Text

-- A container as Docker keeps it.
pub record Box : Type 0 where
  pub id : Text
  pub request : Request
  pub running : Bool
  pub networks : List Text

pub data ApiError : Type 0 where
  not_found : ApiError
  refused : Text → ApiError

pub data DockerError : Type 0 where
  empty_name empty_image empty_command invalid_port : DockerError
  api : ApiError → DockerError

pub record Api : Type 1 where
  pub World : Type 0
  pub container_inspect : Text → M World ApiError Box
  pub container_stop : Text → M World ApiError (Unit {0})
  pub container_remove : Text → M World ApiError (Unit {0})
  pub container_create : Request → Text → M World ApiError Text
  pub container_start : Text → M World ApiError (Unit {0})
  pub container_restart : Text → M World ApiError (Unit {0})
  pub network_list : Text → M World ApiError (List Text)
  pub network_create : Text → M World ApiError (Unit {0})
  pub network_connect : Text → Text → M World ApiError (Unit {0})
  pub new_port : Text → Text → Option Text

abbrev key_less : Text × Text → Text × Text → Bool
unfolding text_lt
key_less a b = text_lt a.0 b.0

unfoldable pub env_slice : List (Text × Text) → List Text
unfolding sort text_lt
env_slice env = map (λ e. e.0 ++ codes "=" ++ e.1) (sort key_less env)

abbrev pub bind_mount : Mount → Text
bind_mount m =
    if m.read_only
    then m.source ++ codes ":" ++ m.target ++ codes ":ro"
    else m.source ++ codes ":" ++ m.target

unfoldable pub bind_mounts : List Mount → List Text
unfolding sort text_lt
bind_mounts mounts = sort text_lt (map bind_mount mounts)

abbrev is_ro : Text → Bool
unfolding equal_fold trim_space
is_ro option = equal_fold (trim_space option) (codes "ro")

abbrev with_options : Text → Option (Text × Text) → Text → Mount
unfolding exists split equal_fold trim_space
with_options source none target = record { source = source; target = target; read_only = false }
with_options source (some (target, options)) _ = record {
  source = source;
  target = target;
  read_only = exists is_ro (split b',' options);
}

-- One bind, cut at the first two colons; a bind without a colon is passed over.
unfoldable pub mount_of_bind : Text → Option Mount
unfolding cut exists split equal_fold trim_space
mount_of_bind bind = elim (cut b':' bind) [
  | none ↦ none
  | some (source, rest) ↦ some (with_options source (cut b':' rest) rest)
]

unfoldable pub protocol_or_default : Text → Text
unfolding text_eq trim_space lower
protocol_or_default protocol = if is_blank protocol then codes "tcp" else to_lower protocol

unfoldable pub restart_policy_name : Text → Text
unfolding text_eq trim_space
restart_policy_name policy =
    let p = trim_space policy in
    if text_eq p (codes "always") || text_eq p (codes "no") || text_eq p (codes "on-failure")
    then policy
    else codes "unless-stopped"

-- Memory in use without the page cache, `none` for a statistic that is missing.
abbrev less_cache : ℕ → Option ℕ → Option ℕ
less_cache usage none = none
less_cache usage (some cache) = if ltb cache usage then some (usage - cache) else none

abbrev first_some : Option ℕ → ℕ → ℕ
first_some none d = d
first_some (some n) d = n

unfoldable pub effective_memory_usage : ℕ → Option ℕ → Option ℕ → Option ℕ → ℕ
effective_memory_usage usage total_inactive inactive cache =
    if usage == 0
    then 0
    else first_some (less_cache usage total_inactive)
        (first_some (less_cache usage inactive) (first_some (less_cache usage cache) usage))

unfoldable pub network_totals : List (ℕ × ℕ) → ℕ × ℕ → ℕ × ℕ
network_totals [] totals = totals
network_totals ((rx, tx) ∷ items) totals =
    network_totals items ((totals.0 + rx) % two_to_64, (totals.1 + tx) % two_to_64)

module _ (a : Api) where
  abbrev pub Docker : Type 0 → Type 0
  Docker A = M a.World DockerError A

  -- A call of the API, whose error is passed on.
  abbrev pub call : {A : Type 0} → M a.World ApiError A → Docker A
  call m w = elim (m w) [ ok x t ↦ ok x t | fail e t ↦ fail (api e) t ]

  -- A call whose answer that there is no such container is no error.
  abbrev pub unless_missing : M a.World ApiError (Unit {0}) → Docker (Unit {0})
  unless_missing m w = elim (m w) [
    | ok x t ↦ ok x t
    | fail e t ↦ elim e [ not_found ↦ ok tt t | refused text ↦ fail (api (refused text)) t ]
  ]

  unfoldable pub must_ports : List (Text × Text) → Docker (List Text)
  must_ports [] w = ok [] w
  must_ports ((protocol, port) ∷ ports) w = elim (a.new_port protocol port) [
    | none ↦ fail invalid_port w
    | some p ↦ (do rest ← must_ports ports; return (p ∷ rest)) w
  ]

  unfoldable pub published_key : PortBinding → Text × Text
  unfolding protocol_or_default
  published_key b = (protocol_or_default b.protocol, b.container_port)

  abbrev pub pair_up : List Text → List PortBinding → List (Text × PortBinding)
  pair_up [] bs = []
  pair_up (p ∷ ps) [] = []
  pair_up (p ∷ ps) (b ∷ bs) = (p, b) ∷ pair_up ps bs

  abbrev pub request_with : ContainerSpec → List Text → List Text → Request
  unfolding env_slice bind_mounts restart_policy_name
  request_with spec exposed published = record {
    image = spec.image;
    command = spec.command;
    env = env_slice spec.env;
    labels = spec.labels;
    exposed_ports = exposed ++ published;
    binds = bind_mounts spec.mounts;
    auto_remove = spec.auto_remove;
    port_bindings = pair_up published spec.published_ports;
    restart_policy = restart_policy_name spec.restart_policy;
    network_mode = spec.network;
    endpoints = if is_empty spec.network then [] else spec.network ∷ [];
  }

  -- A port that cannot be read stops the call, as the panic of `mustPort` does.
  unfoldable pub request_of : ContainerSpec → Docker Request
  unfolding must_ports published_key env_slice bind_mounts restart_policy_name
  request_of spec = do
    exposed ← must_ports (map (λ p. (codes "tcp", p)) spec.exposed_ports)
    published ← must_ports (map published_key spec.published_ports)
    return (request_with spec exposed published)

  unfoldable pub ensure_network : Text → Docker (Unit {0})
  unfolding exists text_eq
  ensure_network name = do
    names ← call (a.network_list name)
    if exists (text_eq name) names then return tt else call (a.network_create name)

  unfoldable pub ensure_container_on_network : Text → Text → Docker (Unit {0})
  unfolding exists text_eq
  ensure_container_on_network network name = do
    item ← call (a.container_inspect name)
    if exists (text_eq network) item.networks
        then return tt
        else call (a.network_connect network name)

  unfoldable pub remove_container : Text → Docker (Unit {0})
  remove_container name =
      unless_missing (a.container_stop name) >> unless_missing (a.container_remove name)

  unfoldable pub restart_container : Text → Docker (Unit {0})
  restart_container name = call (a.container_restart name)

  -- The container that has the name already is stopped and removed.
  unfoldable pub clear_name : Text → Docker (Unit {0})
  unfolding remove_container
  clear_name name w = elim (a.container_inspect name w) [
    | ok x t ↦ remove_container name t
    | fail e t ↦ elim e [ not_found ↦ ok tt t | refused text ↦ fail (api (refused text)) t ]
  ]

  -- What follows the checks of the specification.
  unfoldable pub asked : ContainerSpec → Docker Box
  unfolding ensure_network clear_name request_of
  asked spec = do
    if is_empty spec.network then return tt else ensure_network spec.network
    clear_name spec.name
    request ← request_of spec
    id ← call (a.container_create request spec.name)
    call (a.container_start id)
    call (a.container_inspect id)

  unfoldable pub recreate_container : ContainerSpec → Docker Box
  unfolding asked trim_space text_eq
  recreate_container spec w =
      if is_blank spec.name
      then fail empty_name w
      else if is_blank spec.image
      then fail empty_image w
      else asked spec w
