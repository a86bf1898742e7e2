-- ===== src/Caddy/Matching.antt =====
-- The rule that `BuildConfig` makes of a route is found again under the route's key
-- (internal/caddyadmin/service.go).
use caddytower.Prelude.{
  ◌≡◌, refl, sym, ◌∙◌, ap, Bool, true, false, ◌||◌, some, List, [], ◌∷◌, if◌then◌else◌,
}
use mathlib.Core.Path.{ap₂}
use caddytower.Prelude.Texts.{Text, codes, text_eq, trim_space}
use caddytower.Caddy.{HttpRoute, Match, build_match, build_rule, route_key, is_blank}
use caddytower.Caddy.Merge.{
  rule_value, match_fields, match_value_of, matcher_kind, kind_from, path_text, matcher_matches,
  route_matches_managed_keys, is_managed, key_route,
}

-- A route as `expandedProjectRoutes` makes them: a known match type, a trimmed path that is not
-- blank for a path matcher, and none for a host.
pub data IsCanonical (r : HttpRoute) : Type 0 where
  host_route : r.match_type ≡ codes "host" → r.match_value ≡ [] → IsCanonical r
  prefix_route :
      r.match_type ≡ codes "path_prefix"
      → is_blank r.match_value ≡ false
      → trim_space r.match_value ≡ r.match_value
      → IsCanonical r
  exact_route :
      r.match_type ≡ codes "path_exact"
      → is_blank r.match_value ≡ false
      → trim_space r.match_value ≡ r.match_value
      → IsCanonical r

module _ (h v : Text) where
  path_text_lem : is_blank v ≡ false → trim_space v ≡ v → path_text v ≡ some v
  unfolding path_text
  path_text_lem b t = rw (b, t)

  host_kind :
      matcher_kind (match_fields (record { host = h ∷ []; path_prefix = []; path_exact = [] }))
      ≡ (codes "host", [])
  unfolding matcher_kind
  host_kind = refl

  prefix_kind :
      is_blank v ≡ false
      → trim_space v ≡ v
      → matcher_kind
          (match_fields (record { host = h ∷ []; path_prefix = v ∷ []; path_exact = [] }))
        ≡ (codes "path_prefix", v)
  unfolding matcher_kind
  prefix_kind b t = ap (kind_from (codes "path_prefix")) (path_text_lem b t)

  exact_kind :
      is_blank v ≡ false
      → trim_space v ≡ v
      → matcher_kind
          (match_fields (record { host = h ∷ []; path_prefix = []; path_exact = v ∷ [] }))
        ≡ (codes "path_exact", v)
  unfolding matcher_kind
  exact_kind b t = ap (kind_from (codes "path_exact")) (path_text_lem b t)

build_match_of : (h t v : Text) → Match
unfolding text_eq
build_match_of h t v = record {
  host = h ∷ [];
  path_prefix = if text_eq t (codes "path_prefix") then v ∷ [] else [];
  path_exact = if text_eq t (codes "path_exact") then v ∷ [] else [];
}

-- The matcher of a canonical route says the route's match type and value.
kind-build :
    (r : HttpRoute)
    → IsCanonical r
    → matcher_kind (match_fields (build_match r)) ≡ (r.match_type, r.match_value)
unfolding build_match build_match_of
kind-build r (host_route t v) =
    ap (λ (x : Text). matcher_kind (match_fields (build_match_of r.host x r.match_value))) t
    ∙ host_kind r.host r.match_value
    ∙ sym (ap₂ (λ (a b : Text). (a, b)) t v)
kind-build r (prefix_route t b n) =
    ap (λ (x : Text). matcher_kind (match_fields (build_match_of r.host x r.match_value))) t
    ∙ prefix_kind r.host r.match_value b n
    ∙ ap (λ (a : Text). (a, r.match_value)) (sym t)
kind-build r (exact_route t b n) =
    ap (λ (x : Text). matcher_kind (match_fields (build_match_of r.host x r.match_value))) t
    ∙ exact_kind r.host r.match_value b n
    ∙ ap (λ (a : Text). (a, r.match_value)) (sym t)

or_false : (b : Bool) → (b || false) ≡ b
or_false true = refl
or_false false = refl

route_key_of :
    (r : HttpRoute) → route_key (key_route r.host (r.match_type, r.match_value)) ≡ route_key r
unfolding route_key
route_key_of r = refl

matcher_matches-build :
    (keys : List Text) (r : HttpRoute)
    → IsCanonical r
    → matcher_matches keys (match_value_of (build_match r)) ≡ is_managed keys (route_key r)
unfolding matcher_matches build_match
matcher_matches-build keys r c =
    or_false _
    ∙ ap (λ (k : Text × Text). is_managed keys (route_key (key_route r.host k))) (kind-build r c)
    ∙ ap (is_managed keys) (route_key_of r)

-- The rule of a canonical route counts as managed exactly if the route's key does.
pub route_matches-build :
    (keys : List Text) (r : HttpRoute)
    → IsCanonical r
    → route_matches_managed_keys keys (rule_value (build_rule r)) ≡ is_managed keys (route_key r)
unfolding route_matches_managed_keys rule_value build_rule
route_matches-build keys r c = or_false _ ∙ matcher_matches-build keys r c
