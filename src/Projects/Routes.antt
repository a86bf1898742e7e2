-- ===== src/Projects/Routes.antt =====
-- internal/projects/service.go: the hosts and routes of a project, and `reconcileCaddy`. The value of
-- `controllerPort`, the settings and the projects that the tables hold are arguments.
pub mod Hosts
pub mod Plan
mod Tests
use caddytower.Prelude.{
  ℕ, zero, suc, ◌+◌, ◌/◌, ◌%◌, ltb, Bool, true, false, not, ◌||◌, Option, none, some, List, [], ◌∷◌,
  ◌++◌, map, is_empty, exists, if◌then◌else◌,
}
use caddytower.Prelude.Int.{pos, negsuc}
use caddytower.Prelude.Decimal.{itoa}
use caddytower.Prelude.Sorting.{sort}
use caddytower.Prelude.Texts.{
  Text, codes, text_eq, text_lt, to_lower, lower, trim_space, trim_char, trim_prefix,
}
use caddytower.Prelude.Effects.{M, Outcome, ok, fail}
use caddytower.Caddy.{HttpRoute, route_key, is_blank}
use caddytower.Caddy.Client.{JsonCodec, AdminApi, CaddyError, reconcile_managed_routes}
use caddytower.Projects.{Project, ProjectHttpRoute, Settings, is_web}

unfoldable pub normalize_hostname : Text → Text
unfolding trim_space trim_char
normalize_hostname value = trim_char b'.' (to_lower (trim_space value))

unfoldable pub normalize_http_route_match_type : Text → Text
unfolding trim_space text_eq
normalize_http_route_match_type value =
    let t = trim_space (to_lower value) in
    if text_eq t (codes "path_prefix") || text_eq t (codes "prefix")
    then codes "path_prefix"
    else if text_eq t (codes "path_exact") || text_eq t (codes "exact")
    then codes "path_exact"
    else codes "host"

unfoldable pub admin_hostname : Text → Text
unfolding trim_space trim_prefix
admin_hostname root =
    if is_empty (trim_space root)
    then []
    else codes "caddytower" ++ codes "." ++ trim_prefix (trim_space root) (codes ".")

-- The closure `add` of `effectiveProjectRouteHosts`: the hosts so far are the keys of `seen`.
unfoldable pub add_host : Text → List Text → List Text
unfolding normalize_hostname exists text_eq
add_host host hosts =
    let h = normalize_hostname host in
    if is_empty h then hosts else if exists (text_eq h) hosts then hosts else hosts ++ h ∷ []

unfoldable pub add_hosts : List Text → List Text → List Text
add_hosts [] hosts = hosts
add_hosts (d ∷ ds) hosts = add_hosts ds (add_host d hosts)

unfoldable pub effective_project_route_hosts : Project → List Text
unfolding add_host add_hosts sort text_lt
effective_project_route_hosts p =
    sort text_lt (add_hosts p.custom_domains (add_host p.full_domain []))

unfoldable pub expand_host : Text → ProjectHttpRoute → Text → HttpRoute
expand_host upstream r host = record {
  host = host;
  match_type = normalize_http_route_match_type r.match_type;
  match_value = trim_space r.match_value;
  strip_prefix = r.strip_prefix;
  rewrite_prefix = trim_space r.rewrite_prefix;
  priority = r.priority;
  upstreams = upstream ∷ [];
}

unfoldable pub expand_hosts : Text → ProjectHttpRoute → List Text → List HttpRoute
expand_hosts upstream r [] = []
expand_hosts upstream r (h ∷ hs) =
    let rest = expand_hosts upstream r hs in
    if is_blank h then rest else expand_host upstream r h ∷ rest

unfoldable pub expand_routes : Text → List Text → List ProjectHttpRoute → List HttpRoute
expand_routes upstream hosts [] = []
expand_routes upstream hosts (r ∷ rs) =
    expand_hosts upstream r
      (if is_blank r.hostname then hosts else normalize_hostname r.hostname ∷ [])
    ++ expand_routes upstream hosts rs

-- The route of a project that names none.
abbrev pub default_route : ProjectHttpRoute
default_route = record {
  hostname = [];
  match_type = codes "host";
  match_value = [];
  strip_prefix = false;
  rewrite_prefix = [];
  priority = pos 0;
}

abbrev pub project_routes : List ProjectHttpRoute → List ProjectHttpRoute
project_routes [] = default_route ∷ []
project_routes (r ∷ rs) = r ∷ rs

abbrev pub key_less : HttpRoute → HttpRoute → Bool
key_less a b = text_lt (route_key a) (route_key b)

unfoldable pub expanded_project_routes : Project → List HttpRoute
unfolding itoa
expanded_project_routes p =
    let hosts = effective_project_route_hosts p in
    if not (is_web p)
    then []
    else if is_empty hosts
    then []
    else sort key_less (
        expand_routes (p.container_name ++ codes ":" ++ itoa p.internal_port) hosts
          (project_routes p.http_routes))

abbrev pub admin_route : Settings → Text → HttpRoute
admin_route settings port = record {
  host = admin_hostname settings.root_domain;
  match_type = codes "host";
  match_value = [];
  strip_prefix = false;
  rewrite_prefix = [];
  priority = negsuc 0;
  upstreams = (codes "caddytower" ++ codes ":" ++ port) ∷ [];
}

-- The loop of `reconcileCaddy` over the projects: the routes and the managed keys so far.
unfoldable pub collect : List Project → List HttpRoute → List Text → List HttpRoute × List Text
collect [] routes keys = (routes, keys)
collect (p ∷ ps) routes keys =
    if is_web p
    then collect ps (routes ++ expanded_project_routes p)
        (keys ++ map route_key (expanded_project_routes p))
    else collect ps routes keys

-- The routes and managed keys of `reconcileCaddy`.
unfoldable pub plan : Settings → Text → List Project → List HttpRoute × List Text
plan settings port projects =
    if is_empty settings.root_domain
    then collect projects [] []
    else let admin = admin_route settings port in
      collect projects (admin ∷ []) (route_key admin ∷ [])

pub data ReconcileError : Type 0 where
  root_domain_required : ReconcileError
  caddy : CaddyError → ReconcileError

module _ (json : JsonCodec) (api : AdminApi) where
  abbrev as_reconcile :
      Outcome api.Admin CaddyError Bool → Outcome api.Admin ReconcileError (Unit {0})
  as_reconcile (ok b t) = ok tt t
  as_reconcile (fail e t) = fail (caddy e) t

  unfoldable pub reconcile_caddy :
      Settings → Text → List Project → M api.Admin ReconcileError (Unit {0})
  reconcile_caddy settings port projects s =
      let routes = plan settings port projects in
      if is_empty routes.1
      then ok tt s
      else if is_empty settings.root_domain
      then fail root_domain_required s
      else as_reconcile (reconcile_managed_routes json api routes.0 routes.1 s)
