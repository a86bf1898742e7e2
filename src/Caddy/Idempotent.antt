-- ===== src/Caddy/Idempotent.antt =====
-- What a merge keeps, drops and adds (`MergeManagedRoutes`, internal/caddyadmin/service.go).
use caddytower.Prelude.{
  ◌≡◌, refl, sym, ◌∙◌, ap, Bool, true, false, not, Option, none, some, List, [], ◌∷◌, ◌++◌, map,
  keep, keep-append, keep_idem, All,
}
use caddytower.Prelude.Texts.{Text, codes, text_eq}
use caddytower.Json.{
  Value, obj, Fields, get_field, set_field, get_field-set_self, get_field-set_ne, to_list-of_list,
}
use caddytower.Caddy.{HttpRoute, build_config, build_rule, route_key, route_less}
use caddytower.Prelude.Sorting.{sort, All-sort}
use mathlib.Core.List.{append-nil}
use caddytower.Caddy.Merge.{
  server_routes, values_of, object_of, with_listen, merge_server, server_of, put_server,
  merge_managed_routes, ensure_map, desired_routes, route_matches_managed_keys, listen_default,
  rule_value, is_managed,
}
use caddytower.Caddy.Matching.{IsCanonical, route_matches-build}

get_field-with_listen :
    (o : Option Value) (k : Text) (server : Fields)
    → text_eq (codes "listen") k ≡ false
    → get_field k (with_listen o server) ≡ get_field k server
get_field-with_listen none k server h = get_field-set_ne (codes "listen") k _ server h
get_field-with_listen (some v) k server h = refl

-- The merged server has the old routes that no managed key names, in their order, and then the
-- desired ones.
pub server_routes-merge :
    (server : Fields) (routes : List HttpRoute) (keys : List Text)
    → server_routes (merge_server server routes keys)
      ≡ keep (λ v. not (route_matches_managed_keys keys v)) (server_routes server)
        ++ desired_routes routes
unfolding merge_server text_eq
server_routes-merge server routes keys =
    let unmanaged : Value → Bool = λ v. not (route_matches_managed_keys keys v) in
    ap values_of (get_field-set_self (codes "routes") _ (listen_default server))
    ∙ to_list-of_list _
    ∙ ap (λ (o : Option Value). keep unmanaged (values_of o) ++ desired_routes routes)
        (get_field-with_listen (get_field (codes "listen") server) (codes "routes") server refl)

ensure_map-set : (k : Text) (fs root : Fields) → ensure_map (set_field k (obj fs) root) k ≡ fs
unfolding ensure_map
ensure_map-set k fs root = ap object_of (get_field-set_self k (obj fs) root)

server_of-put : (root server : Fields) → server_of (put_server root server) ≡ server
unfolding server_of put_server
server_of-put root server = simp ensure_map-set

-- The routes of the managed server in a whole configuration.
abbrev pub routes_of : Fields → List Value
routes_of root = server_routes (server_of root)

module _ (routes : List HttpRoute) (keys : List Text) where
  abbrev unmanaged : Value → Bool
  unmanaged v = not (route_matches_managed_keys keys v)

  -- In the merged configuration the managed server has the old routes that no managed key names, in
  -- their order, and then the rules of the desired routes.
  pub routes-merge :
      (root : Fields)
      → routes_of (merge_managed_routes root routes keys)
        ≡ keep (λ v. not (route_matches_managed_keys keys v)) (routes_of root)
          ++ desired_routes routes
  unfolding merge_managed_routes
  routes-merge root =
      ap server_routes (server_of-put root (merge_server (server_of root) routes keys))
      ∙ server_routes-merge (server_of root) routes keys

  -- Every desired route is canonical, and its key is managed.
  abbrev pub Covered : List HttpRoute → Type 0
  Covered = All (λ r. IsCanonical r × (is_managed keys (route_key r) ≡ true))

  keep-desired :
      (rs : List HttpRoute) → Covered rs → keep unmanaged (map rule_value (map build_rule rs)) ≡ []
  unfolding keep
  keep-desired [] c = refl
  keep-desired (r ∷ rs) c = rw (route_matches-build keys r c.0.0, c.0.1) (keep-desired rs c.1)

  -- Merging a second time changes no route, if the desired routes are canonical and their keys are
  -- managed.
  pub routes-merge-merge :
      (root : Fields)
      → Covered routes
      → routes_of (merge_managed_routes (merge_managed_routes root routes keys) routes keys)
        ≡ routes_of (merge_managed_routes root routes keys)
  unfolding build_config
  routes-merge-merge root c =
      let covered =
        All-sort (λ r. IsCanonical r × (is_managed keys (route_key r) ≡ true)) route_less routes
          c in
      routes-merge (merge_managed_routes root routes keys)
      ∙ ap (λ (vs : List Value). keep unmanaged vs ++ desired_routes routes) (routes-merge root)
      ∙ rw
          (
            keep-append unmanaged (keep unmanaged (routes_of root)) (desired_routes routes),
            keep_idem unmanaged (routes_of root),
            keep-desired (sort route_less routes) covered,
            append-nil,
          )
          (sym (routes-merge root))

  keep-gone :
      (rs : List HttpRoute)
      → All (λ r. IsCanonical r × (is_managed keys (route_key r) ≡ false)) rs
      → keep unmanaged (map rule_value (map build_rule rs)) ≡ map rule_value (map build_rule rs)
  unfolding keep
  keep-gone [] c = refl
  keep-gone (r ∷ rs) c =
      rw (route_matches-build keys r c.0.0, c.0.1)
        (ap (λ t. rule_value (build_rule r) ∷ t) (keep-gone rs c.1))

  -- Rules of canonical routes whose keys are not managed, as those of a deleted project or domain, stay
  -- in the merged configuration, in their order and between what stays of the routes before and after
  -- them, whatever these routes are; the desired rules follow.
  pub routes-merge_gone :
      (root : Fields) (before after : List Value) (gone : List HttpRoute)
      → All (λ r. IsCanonical r × (is_managed keys (route_key r) ≡ false)) gone
      → routes_of root ≡ before ++ map rule_value (map build_rule gone) ++ after
      → routes_of (merge_managed_routes root routes keys)
        ≡ keep (λ v. not (route_matches_managed_keys keys v)) before
          ++ map rule_value (map build_rule gone)
          ++ keep (λ v. not (route_matches_managed_keys keys v)) after
          ++ desired_routes routes
  routes-merge_gone root before after gone c h =
      let rules : List Value = map rule_value (map build_rule gone) in
      routes-merge root
      ∙ ap (λ (vs : List Value). keep unmanaged vs ++ desired_routes routes) h
      ∙ rw
          (
            keep-append unmanaged (before ++ rules) after,
            keep-append unmanaged before rules,
            keep-gone gone c,
          )
          refl
