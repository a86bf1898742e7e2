-- ===== src/Caddy/Merge.antt =====
-- internal/caddyadmin/service.go: `MergeManagedRoutes`, over decoded JSON.
use caddytower.Prelude.{
  Bool, true, false, not, Option, none, some, List, [], ◌∷◌, ◌++◌, map, keep, exists, is_empty,
  if◌then◌else◌,
}
use caddytower.Prelude.Texts.{Text, codes, text_eq, trim_space}
use caddytower.Prelude.Int.{pos}
use caddytower.Json.{
  Value, bool, str, arr, obj, Items, Fields, end, field, to_list, of_list, get_field, set_field,
  as_object, as_array, as_string,
}
use caddytower.Caddy.{
  HttpRoute, Match, UriSubstring, Handler, RouteRule, build_config, route_key, is_blank,
}

abbrev pub default_server_name : Text
default_server_name = codes "srv0"

-- `json.Marshal` of a route, decoded again. Empty fields marked `omitempty` are left out.
abbrev pub texts : List Text → Value
texts ts = arr (of_list (map str ts))

abbrev pub put_if : Bool → Text → Value → Fields → Fields
put_if true k v fs = field k v fs
put_if false k v fs = fs

abbrev pub objects : List Value → Value
objects vs = arr (of_list vs)

pub encoding_set : List Text → Fields
encoding_set [] = end
encoding_set (t ∷ ts) = field t (obj end) (encoding_set ts)

abbrev pub match_fields : Match → Fields
match_fields m = put_if (not (is_empty m.host)) (codes "host") (texts m.host) (
    put_if (not (is_empty m.path_prefix)) (codes "path_prefix") (texts m.path_prefix)
      (put_if (not (is_empty m.path_exact)) (codes "path_exact") (texts m.path_exact) end))

abbrev pub match_value_of : Match → Value
match_value_of m = obj (match_fields m)

pub substring_value : UriSubstring → Value
substring_value u = obj (
    put_if (not (is_empty u.find)) (codes "find") (str u.find)
      (put_if (not (is_empty u.replace)) (codes "replace") (str u.replace) end))

pub handler_value : Handler → Value
unfolding encoding_set substring_value
handler_value h = obj (
    field (codes "handler") (str h.handler) (
      put_if (not (is_empty h.encodings)) (codes "encodings") (obj (encoding_set h.encodings)) (
        put_if (not (is_empty h.upstreams)) (codes "upstreams")
          (objects (map (λ u. obj (field (codes "dial") (str u) end)) h.upstreams))
          (put_if (not (is_empty h.strip_path_prefix)) (codes "strip_path_prefix")
            (str h.strip_path_prefix)
            (put_if (not (is_empty h.uri_substring)) (codes "uri_substring")
              (objects (map substring_value h.uri_substring)) end)))))

unfoldable pub rule_value : RouteRule → Value
unfolding handler_value
rule_value r = obj (
    put_if (not (is_empty r.matches)) (codes "match") (objects (map match_value_of r.matches)) (
      put_if (not (is_empty r.handle)) (codes "handle") (objects (map handler_value r.handle))
        (put_if r.terminal (codes "terminal") (bool true) end)))

-- A text, trimmed, if it is not blank.
unfoldable pub path_text : Text → Option Text
path_text t = if is_blank t then none else some (trim_space t)

-- The first text of an array, if it is not blank: what a path matcher names.
abbrev pub first_text : List Value → Option Text
first_text [] = none
first_text (v ∷ vs) = elim (as_string (some v)) [ none ↦ none | some t ↦ path_text t ]

abbrev pub is_filled : Option Items → Bool
is_filled none = false
is_filled (some vs) = not (is_empty (to_list vs))

abbrev pub kind_from : Text → Option Text → Text × Text
kind_from kind none = (codes "host", [])
kind_from kind (some t) = (kind, t)

abbrev pub kind_of : Text → Option Items → Text × Text
kind_of kind none = (codes "host", [])
kind_of kind (some vs) = kind_from kind (first_text (to_list vs))

-- The match type and value of a matcher: `path_exact` is read first, and hides `path_prefix` where it
-- is an array with an element.
unfoldable pub matcher_kind : Fields → Text × Text
unfolding get_field
matcher_kind m =
    let exact = as_array (get_field (codes "path_exact") m) in
    let prefix = as_array (get_field (codes "path_prefix") m) in
    if is_filled exact
    then kind_of (codes "path_exact") exact
    else if is_filled prefix
    then kind_of (codes "path_prefix") prefix
    else (codes "host", [])

abbrev pub key_route : Text → Text × Text → HttpRoute
key_route host kind = record {
  host = host;
  match_type = kind.0;
  match_value = kind.1;
  strip_prefix = false;
  rewrite_prefix = [];
  priority = pos 0;
  upstreams = [];
}

abbrev pub is_managed : List Text → Text → Bool
is_managed keys k = exists (text_eq k) keys

abbrev host_matches : List Text → Text × Text → Value → Bool
host_matches keys kind v = elim (as_string (some v)) [
  | none ↦ false
  | some host ↦ is_managed keys (route_key (key_route host kind))
]

unfoldable pub matcher_matches : List Text → Value → Bool
unfolding matcher_kind route_key exists get_field
matcher_matches keys v = elim (as_object (some v)) [
  | none ↦ false
  | some m ↦ elim (as_array (get_field (codes "host") m)) [
    | none ↦ false
    | some hosts ↦ exists (host_matches keys (matcher_kind m)) (to_list hosts)
  ]
]

unfoldable pub route_matches_managed_keys : List Text → Value → Bool
unfolding matcher_matches exists get_field
route_matches_managed_keys keys route = elim (as_object (some route)) [
  | none ↦ false
  | some r ↦ elim (as_array (get_field (codes "match") r)) [
    | none ↦ false
    | some matchers ↦ exists (matcher_matches keys) (to_list matchers)
  ]
]

abbrev pub object_of : Option Value → Fields
object_of (some (obj fs)) = fs
object_of _ = end

-- The object under a key, and the empty one where there is none (`ensureMap`).
unfoldable pub ensure_map : Fields → Text → Fields
unfolding get_field
ensure_map root key = object_of (get_field key root)

abbrev pub with_listen : Option Value → Fields → Fields
with_listen none server =
    set_field (codes "listen") (texts (codes ":80" ∷ codes ":443" ∷ [])) server
with_listen (some v) server = server

abbrev pub listen_default : Fields → Fields
listen_default server = with_listen (get_field (codes "listen") server) server

abbrev pub values_of : Option Value → List Value
values_of (some (arr vs)) = to_list vs
values_of _ = []

-- The routes of a server, as the merge reads them.
unfoldable pub server_routes : Fields → List Value
server_routes server = values_of (get_field (codes "routes") server)

abbrev pub desired_routes : List HttpRoute → List Value
desired_routes routes = map rule_value (build_config routes).routes

unfoldable pub merge_server : Fields → List HttpRoute → List Text → Fields
unfolding server_routes
merge_server server routes keys =
    let preserved =
      keep (λ v. not (route_matches_managed_keys keys v)) (server_routes (listen_default server)) in
    set_field (codes "routes") (objects (preserved ++ desired_routes routes))
      (listen_default server)

-- The nested objects down to the server, `apps.http.servers.srv0`.
abbrev pub apps_of : Fields → Fields
apps_of root = ensure_map root (codes "apps")

abbrev pub http_of : Fields → Fields
http_of root = ensure_map (apps_of root) (codes "http")

abbrev pub servers_of : Fields → Fields
servers_of root = ensure_map (http_of root) (codes "servers")

unfoldable pub server_of : Fields → Fields
server_of root = ensure_map (servers_of root) default_server_name

unfoldable pub put_server : Fields → Fields → Fields
put_server root server =
    set_field (codes "apps")
      (obj (
        set_field (codes "http")
          (obj (
            set_field (codes "servers")
              (obj (set_field default_server_name (obj server) (servers_of root))) (http_of root)))
          (apps_of root)))
      root

-- `root` is the decoded configuration, the empty object for an empty body.
unfoldable pub merge_managed_routes : Fields → List HttpRoute → List Text → Fields
merge_managed_routes root routes keys = put_server root (merge_server (server_of root) routes keys)
