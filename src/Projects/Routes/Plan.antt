-- ===== src/Projects/Routes/Plan.antt =====
-- The routes that `reconcileCaddy` (internal/projects/service.go) hands to Caddy.
use caddytower.Prelude.{
  or_true, ◌≡◌, refl, sym, ◌∙◌, ap, true, false, List, [], ◌∷◌, ◌++◌, map, All, All-append,
  All-mono, is_empty, exists, inl, inr, Bool-cases,
}
use caddytower.Prelude.Sorting.{All-sort}
use caddytower.Prelude.Texts.{Text, codes, text_eq, text_eq_refl, trim_space, lower}
use mathlib.Core.Path.{subst}
use caddytower.Json.{Fields}
use caddytower.Caddy.{HttpRoute, route_key, is_blank}
use caddytower.Caddy.Matching.{IsCanonical, host_route, prefix_route, exact_route}
use caddytower.Caddy.Merge.{is_managed, merge_managed_routes}
use caddytower.Caddy.Idempotent.{Covered, routes_of, routes-merge-merge}
use caddytower.Projects.{Project, ProjectHttpRoute, Settings, is_web}
use caddytower.Projects.Routes.{
  normalize_http_route_match_type, expand_host, expand_hosts, expand_routes, project_routes,
  key_less, expanded_project_routes, effective_project_route_hosts, itoa, admin_route, collect,
  plan,
}

-- A route rule as `parseHTTPRoutesText` makes them: a known match type, and a trimmed path that is
-- not blank for a path matcher and empty for a host.
pub data IsRule (r : ProjectHttpRoute) : Type 0 where
  host_rule : r.match_type ≡ codes "host" → r.match_value ≡ [] → IsRule r
  prefix_rule :
      r.match_type ≡ codes "path_prefix"
      → is_blank r.match_value ≡ false
      → trim_space r.match_value ≡ r.match_value
      → IsRule r
  exact_rule :
      r.match_type ≡ codes "path_exact"
      → is_blank r.match_value ≡ false
      → trim_space r.match_value ≡ r.match_value
      → IsRule r

abbrev pub HasRules : Project → Type 0
HasRules p = All IsRule p.http_routes

module _ (upstream : Text) where
  expand_host-IsCanonical :
      (r : ProjectHttpRoute) (h : Text) → IsRule r → IsCanonical (expand_host upstream r h)
  unfolding expand_host normalize_http_route_match_type trim_space lower
  expand_host-IsCanonical r h (host_rule t v) =
      host_route (ap normalize_http_route_match_type t) (ap trim_space v)
  expand_host-IsCanonical r h (prefix_rule t b n) =
      prefix_route (ap normalize_http_route_match_type t) (ap is_blank n ∙ b) (ap trim_space n)
  expand_host-IsCanonical r h (exact_rule t b n) =
      exact_route (ap normalize_http_route_match_type t) (ap is_blank n ∙ b) (ap trim_space n)

  expand_hosts-IsCanonical :
      (r : ProjectHttpRoute) (hosts : List Text)
      → IsRule r
      → All IsCanonical (expand_hosts upstream r hosts)
  unfolding expand_hosts
  expand_hosts-IsCanonical r [] k = tt
  expand_hosts-IsCanonical r (h ∷ hs) k = elim (Bool-cases (is_blank h)) [
    | inl e ↦ rw e (expand_hosts-IsCanonical r hs k)
    | inr e ↦ rw e (expand_host-IsCanonical r h k, expand_hosts-IsCanonical r hs k)
  ]

  expand_routes-IsCanonical :
      (hosts : List Text) (rs : List ProjectHttpRoute)
      → All IsRule rs
      → All IsCanonical (expand_routes upstream hosts rs)
  unfolding expand_routes
  expand_routes-IsCanonical hosts [] k = tt
  expand_routes-IsCanonical hosts (r ∷ rs) k =
      All-append IsCanonical _ _ (expand_hosts-IsCanonical r _ k.0)
        (expand_routes-IsCanonical hosts rs k.1)

project_routes-IsRule :
    (rs : List ProjectHttpRoute) → All IsRule rs → All IsRule (project_routes rs)
project_routes-IsRule [] k = (host_rule refl refl, tt)
project_routes-IsRule (r ∷ rs) k = k

expanded-IsCanonical : (p : Project) → HasRules p → All IsCanonical (expanded_project_routes p)
unfolding expanded_project_routes
expanded-IsCanonical p k = elim (Bool-cases (is_web p)) [
  | inr e ↦ rw e tt
  | inl e ↦ rw e (elim (Bool-cases (is_empty (effective_project_route_hosts p))) [
    | inl none_left ↦ rw none_left tt
    | inr some_left ↦ rw some_left (
        All-sort IsCanonical key_less _ (
          expand_routes-IsCanonical (p.container_name ++ codes ":" ++ itoa p.internal_port)
            (effective_project_route_hosts p) (project_routes p.http_routes)
            (project_routes-IsRule p.http_routes k)))
  ])
]

-- The keys are those of the routes, in their order.
abbrev Keyed : List HttpRoute × List Text → Type 0
Keyed found = (found.1 ≡ map route_key found.0) × All IsCanonical found.0

map-append :
    (xs ys : List HttpRoute) → map route_key (xs ++ ys) ≡ map route_key xs ++ map route_key ys
map-append [] ys = refl
map-append (x ∷ xs) ys = ap (λ (ks : List Text). route_key x ∷ ks) (map-append xs ys)

collect-Keyed :
    (ps : List Project) (routes : List HttpRoute) (keys : List Text)
    → All HasRules ps
    → Keyed (routes, keys)
    → Keyed (collect ps routes keys)
unfolding collect
collect-Keyed [] routes keys rules k = k
collect-Keyed (p ∷ ps) routes keys rules k = elim (Bool-cases (is_web p)) [
  | inr e ↦ rw e (collect-Keyed ps routes keys rules.1 k)
  | inl e ↦ rw e (
      collect-Keyed ps _ _ rules.1 (
        ap (λ (ks : List Text). ks ++ map route_key (expanded_project_routes p)) k.0
            ∙ sym (map-append routes (expanded_project_routes p)),
        All-append IsCanonical routes _ k.1 (expanded-IsCanonical p rules.0),
      ))
]

plan-Keyed :
    (settings : Settings) (port : Text) (ps : List Project)
    → All HasRules ps
    → Keyed (plan settings port ps)
unfolding plan
plan-Keyed settings port ps rules = elim (Bool-cases (is_empty settings.root_domain)) [
  | inl e ↦ rw e (collect-Keyed ps [] [] rules (refl, tt))
  | inr e ↦ rw e (
      collect-Keyed ps (admin_route settings port ∷ []) (route_key (admin_route settings port) ∷ [])
        rules (refl, (host_route refl refl, tt)))
]

-- The key of every route of a list is one of the list's keys.
keys-managed :
    (rs : List HttpRoute) → All (λ r. is_managed (map route_key rs) (route_key r) ≡ true) rs
unfolding exists
keys-managed [] = tt
keys-managed (r ∷ rs) = (
  rw (text_eq_refl (route_key r)) refl,
  All-mono rs (λ q h. or_true (text_eq (route_key q) (route_key r)) _ h) (keys-managed rs),
)

Covered-both :
    (keys : List Text) (rs : List HttpRoute)
    → All IsCanonical rs
    → All (λ r. is_managed keys (route_key r) ≡ true) rs
    → Covered rs keys rs
Covered-both keys [] p q = tt
Covered-both keys (r ∷ rs) p q = ((p.0, q.0), Covered-both keys rs p.1 q.1)

plan-Covered :
    (settings : Settings) (port : Text) (ps : List Project)
    → All HasRules ps
    → Covered (plan settings port ps).0 (plan settings port ps).1 (plan settings port ps).0
plan-Covered settings port ps rules =
    let k = plan-Keyed settings port ps rules in
    let routes = (plan settings port ps).0 in
    Covered-both (plan settings port ps).1 routes k.1 (
      subst (λ (ks : List Text). All (λ r. is_managed ks (route_key r) ≡ true) routes) (sym k.0)
        (keys-managed routes))

-- For projects with well-formed route rules, a second reconciliation with the same settings and
-- projects changes no route: what `reconcileCaddy` hands to `MergeManagedRoutes` is such that merging
-- it again leaves every route of every configuration where it is.
pub plan_idempotent :
    (settings : Settings) (port : Text) (ps : List Project) (root : Fields)
    → All HasRules ps
    → routes_of (
        merge_managed_routes
          (merge_managed_routes root (plan settings port ps).0 (plan settings port ps).1)
          (plan settings port ps).0
          (plan settings port ps).1)
      ≡ routes_of (merge_managed_routes root (plan settings port ps).0 (plan settings port ps).1)
plan_idempotent settings port ps root rules =
    routes-merge-merge (plan settings port ps).0 (plan settings port ps).1 root
      (plan-Covered settings port ps rules)
