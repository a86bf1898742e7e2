-- ===== src/Caddy/Tests.antt =====
-- Two routes of one host, an old configuration, and an admin API that keeps the text of its
-- configuration.
use caddytower.Prelude.{
  ◌≡◌, refl, true, false, not, List, [], ◌∷◌, ◌++◌, map, keep, exists, some, inr, if◌then◌else◌,
}
use caddytower.Prelude.Int.{pos}
use caddytower.Prelude.Texts.{Text, codes, text_eq, trim_space, lower}
use caddytower.Prelude.Effects.{ok, Ends, done}
use caddytower.Json.{
  Value, Items, null, bool, num, str, nil, cons, obj, arr, Fields, end, field, of_list, get_field,
  set_field,
}
use caddytower.Caddy.{HttpRoute, build_rule, route_key}
use caddytower.Caddy.Merge.{
  merge_managed_routes, route_matches_managed_keys, desired_routes, rule_value, is_managed,
  put_server, server_of, server_routes, ensure_map,
}
use caddytower.Caddy.Matching.{IsCanonical, host_route, prefix_route}
use caddytower.Caddy.Client.{JsonCodec, AdminApi, reconcile_managed_routes}
use caddytower.Caddy.Idempotent.{
  routes_of, Covered, routes-merge, routes-merge-merge, routes-merge_gone,
}
use caddytower.Caddy.Reconcile.{IsAdminApi, Merged, Left, reconcile-settles}

abbrev site : HttpRoute
site = record {
  host = codes "a.dev";
  match_type = codes "host";
  match_value = [];
  strip_prefix = false;
  rewrite_prefix = [];
  priority = pos 0;
  upstreams = codes "app:80" ∷ [];
}

abbrev docs : HttpRoute
docs = record {
  host = codes "a.dev";
  match_type = codes "path_prefix";
  match_value = codes "/d";
  strip_prefix = true;
  rewrite_prefix = [];
  priority = pos 1;
  upstreams = codes "docs:80" ∷ [];
}

abbrev wanted : List HttpRoute
wanted = site ∷ docs ∷ []

abbrev wanted_keys : List Text
wanted_keys = map route_key wanted

-- An object with one route that the controller does not manage.
abbrev old_config : Fields
old_config = put_server end (field (codes "routes") (arr (of_list (obj end ∷ []))) end)

site-IsCanonical : IsCanonical site
site-IsCanonical = host_route refl refl

docs-IsCanonical : IsCanonical docs
unfolding trim_space text_eq
docs-IsCanonical = prefix_route refl refl refl

wanted-Covered : Covered wanted wanted_keys wanted
unfolding route_key exists text_eq lower
wanted-Covered = ((site-IsCanonical, refl), ((docs-IsCanonical, refl), tt))

routes-merge_example :
    routes_of (merge_managed_routes old_config wanted wanted_keys)
    ≡ keep (λ v. not (route_matches_managed_keys wanted_keys v)) (routes_of old_config)
      ++ desired_routes wanted
routes-merge_example = routes-merge wanted wanted_keys old_config

routes-merge-merge_example :
    routes_of
      (merge_managed_routes (merge_managed_routes old_config wanted wanted_keys) wanted wanted_keys)
    ≡ routes_of (merge_managed_routes old_config wanted wanted_keys)
routes-merge-merge_example = routes-merge-merge wanted wanted_keys old_config wanted-Covered

abbrev site_config : Fields
site_config = put_server end (
    field (codes "routes")
      (arr (of_list (rule_value (build_rule docs) ∷ rule_value (build_rule site) ∷ obj end ∷ [])))
      end)

site_config-routes :
    routes_of site_config
    ≡ rule_value (build_rule docs) ∷ [] ++ rule_value (build_rule site) ∷ [] ++ obj end ∷ []
unfolding server_routes server_of put_server ensure_map get_field set_field text_eq
site_config-routes = refl

docs_key-site : is_managed (route_key docs ∷ []) (route_key site) ≡ false
unfolding route_key exists text_eq lower
docs_key-site = refl

routes-merge_gone_example :
    routes_of (merge_managed_routes site_config (docs ∷ []) (route_key docs ∷ []))
    ≡ keep
        (λ v. not (route_matches_managed_keys (route_key docs ∷ []) v))
        (rule_value (build_rule docs) ∷ [])
      ++ rule_value (build_rule site) ∷ []
      ++ keep (λ v. not (route_matches_managed_keys (route_key docs ∷ []) v)) (obj end ∷ [])
      ++ desired_routes (docs ∷ [])
routes-merge_gone_example =
    routes-merge_gone (docs ∷ []) (route_key docs ∷ []) site_config
      (rule_value (build_rule docs) ∷ []) (obj end ∷ []) (site ∷ [])
      ((site-IsCanonical, docs_key-site), tt) site_config-routes

unfoldable mutual
  print : Value → Text
  print null = codes "null"
  print (bool true) = codes "true"
  print (bool false) = codes "false"
  print (num t) = t
  print (str t) = 34 ∷ t ++ 34 ∷ []
  print (arr vs) = codes "[" ++ print_items vs ++ codes "]"
  print (obj fs) = codes "{" ++ print_fields fs ++ codes "}"

  print_items : Items → Text
  print_items nil = []
  print_items (cons v nil) = print v
  print_items (cons v vs) = print v ++ codes "," ++ print_items vs

  print_fields : Fields → Text
  print_fields end = []
  print_fields (field k v end) = 34 ∷ k ++ 34 ∷ codes ":" ++ print v
  print_fields (field k v fs) = 34 ∷ k ++ 34 ∷ codes ":" ++ print v ++ codes "," ++ print_fields fs

-- A codec that reads the empty object, and every other text as a string.
abbrev codec : JsonCodec
codec = record {
  decode = λ t. if text_eq t (codes "{}") then some (obj end) else some (str t);
  encode = print;
}

-- A server that holds its configuration and takes every other one.
abbrev memory : AdminApi
memory = record {
  Admin = Text;
  config = λ c. c;
  get_config = λ c. ok (record { is_success = true; body = c }) c;
  post_load = λ body c. ok (record { is_success = true; body = [] }) body;
}

memory-IsAdminApi : IsAdminApi codec memory
memory-IsAdminApi = record {
  get_config-Ends = λ c. done ((λ _. refl), refl);
  post_load-Ends = λ body c. done ((λ _. refl), inr refl);
}

abbrev empty_config : Text
empty_config = codes "{}"

-- A configuration without the routes is loaded with them.
loaded :
    reconcile_managed_routes codec memory wanted wanted_keys empty_config
    ≡ ok true (print (obj (merge_managed_routes end wanted wanted_keys)))
unfolding reconcile_managed_routes trim_space print merge_managed_routes put_server set_field
loaded = refl

reconcile-settles_example :
    Ends
      (λ changed t. Merged codec memory memory-IsAdminApi wanted wanted_keys empty_config changed t)
      (λ e t. Left codec memory memory-IsAdminApi wanted wanted_keys empty_config e t)
      (reconcile_managed_routes codec memory wanted wanted_keys empty_config)
reconcile-settles_example =
    reconcile-settles codec memory memory-IsAdminApi wanted wanted_keys empty_config
