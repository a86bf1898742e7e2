-- ===== src/Projects/Inputs/Rules.antt =====
-- The route rules that the form accepts (internal/projects/service.go).
use caddytower.Prelude.{
  ℕ, suc, ◌+◌, ◌≡◌, refl, sym, ap, ◌∙◌, ◌⊎◌, inl, inr, true, false, ◌||◌, List, [], ◌∷◌, ◌++◌,
  length, is_empty, exists, All, All-append, Bool-cases, if_holds, arith,
}
use caddytower.Prelude.Int.{pos}
use caddytower.Prelude.Results.{value, Holds, held, erred, bind-Holds, Holds-value}
use caddytower.Prelude.Texts.{Text, codes, text_eq, text_eq_iff, split, trim_space, has_prefix}
use caddytower.Prelude.Trim.{trim_space_idem}
use caddytower.Caddy.{is_blank}
use caddytower.Projects.{ProjectHttpRoute}
use caddytower.Projects.Routes.{normalize_http_route_match_type}
use caddytower.Projects.Routes.Plan.{IsRule, host_rule, prefix_rule, exact_rule}
use caddytower.Projects.Inputs.{
  is_absolute, split_delimited_line, read_host, read_match, read_transform, route_with, keep_route,
  same_key, add_route, read_route_parts, read_routes, parse_http_routes_text,
}
use caddytower.Projects.Inputs.Accepted.{any_value}

-- No two rules have the same host, match type and match value.
abbrev pub DistinctKeys : List ProjectHttpRoute → Type 0
DistinctKeys [] = Unit
DistinctKeys (r ∷ rs) = All (λ q. same_key q r ≡ false) rs × DistinctKeys rs

-- The priorities count the rules.
abbrev pub Numbered : ℕ → List ProjectHttpRoute → Type 0
Numbered k [] = Unit
Numbered k (r ∷ rs) = (r.priority ≡ pos k) × Numbered (suc k) rs

-- A rule that is no rule of a whole host has an absolute path.
abbrev pub IsRooted : ProjectHttpRoute → Type 0
IsRooted r = (r.match_type ≡ codes "host") ⊎ (is_absolute r.match_value ≡ true)

abbrev pub IsAccepted : ProjectHttpRoute → Type 0
IsAccepted r = IsRule r × IsRooted r

abbrev pub Ruled : List ProjectHttpRoute → Type 0
Ruled rs = All IsAccepted rs × DistinctKeys rs × Numbered 0 rs

-- A rule of the match type with the match value is well formed.
abbrev Fits : Text → Text → Type 0
Fits kind v = (r : ProjectHttpRoute) → r.match_type ≡ kind → r.match_value ≡ v → IsAccepted r

absolute_filled : (v : Text) → is_absolute v ≡ true → trim_space v ≡ v → is_blank v ≡ false
unfolding text_eq has_prefix
absolute_filled v a t = ap (λ w. text_eq w (codes "")) t ∙ go v a
  where
    go : (w : Text) → is_absolute w ≡ true → text_eq w (codes "") ≡ false
    go [] h = absurd cc
    go (c ∷ w) h = refl

path_rule :
    (kind v : Text)
    → trim_space v ≡ v
    → is_absolute v ≡ true
    → (kind ≡ codes "path_prefix") ⊎ (kind ≡ codes "path_exact")
    → Fits kind v
path_rule kind v t a (inl k) r e m = (
  prefix_rule (e ∙ k) (ap is_blank m ∙ absolute_filled v a t) (ap trim_space m ∙ t ∙ sym m),
  inr (ap is_absolute m ∙ a),
)
path_rule kind v t a (inr k) r e m = (
  exact_rule (e ∙ k) (ap is_blank m ∙ absolute_filled v a t) (ap trim_space m ∙ t ∙ sym m),
  inr (ap is_absolute m ∙ a),
)

path_kind :
    (kind : Text)
    → (text_eq kind (codes "path_prefix") || text_eq kind (codes "path_exact")) ≡ true
    → (kind ≡ codes "path_prefix") ⊎ (kind ≡ codes "path_exact")
path_kind kind h = elim (Bool-cases (text_eq kind (codes "path_prefix"))) [
  | inl e ↦ inl ((text_eq_iff kind (codes "path_prefix")).0 e)
  | inr e ↦ inr ((text_eq_iff kind (codes "path_exact")).0 (ground arith))
]

read_match-Fits :
    (n : ℕ) (kind v : Text) → trim_space v ≡ v → Holds (Fits kind) (read_match n kind v)
unfolding read_match
read_match-Fits n kind v t =
    if_holds (Holds (Fits kind)) (text_eq kind (codes "host"))
      (λ h.
        if_holds (Holds (Fits kind)) (is_empty v)
          (λ _. held (λ r e m.
            let same = e ∙ (text_eq_iff kind (codes "host")).0 h in (host_rule same m, inl same)))
          (λ _. erred))
      (λ _.
        if_holds (Holds (Fits kind))
          (text_eq kind (codes "path_prefix") || text_eq kind (codes "path_exact"))
          (λ k.
            if_holds (Holds (Fits kind)) (is_absolute v)
              (λ a. held (path_rule kind v t a (path_kind kind k))) (λ _. erred))
          (λ _. erred))

Numbered-append :
    (k : ℕ) (rs : List ProjectHttpRoute) (r : ProjectHttpRoute)
    → Numbered k rs
    → r.priority ≡ pos (k + length rs)
    → Numbered k (rs ++ r ∷ [])
Numbered-append k [] r h e = (e ∙ ap pos (omega arith), tt)
Numbered-append k (q ∷ qs) r h e =
    (h.0, Numbered-append (suc k) qs r h.1 (e ∙ ap pos (omega arith)))

DistinctKeys-append :
    (rs : List ProjectHttpRoute) (r : ProjectHttpRoute)
    → exists (same_key r) rs ≡ false
    → DistinctKeys rs
    → DistinctKeys (rs ++ r ∷ [])
unfolding exists
DistinctKeys-append [] r e d = (tt, tt)
DistinctKeys-append (q ∷ qs) r e d = (
  All-append (λ x. same_key x q ≡ false) qs (r ∷ []) d.0 (ground arith, tt),
  DistinctKeys-append qs r (ground arith) d.1,
)

keep_route-Ruled :
    (n : ℕ) (rs : List ProjectHttpRoute) (r : ProjectHttpRoute)
    → IsAccepted r
    → r.priority ≡ pos (length rs)
    → Ruled rs
    → Holds Ruled (keep_route n rs r)
unfolding keep_route
keep_route-Ruled n rs r k e g =
    if_holds (Holds Ruled) (exists (same_key r) rs) (λ _. erred)
      (λ fresh. held (
        All-append IsAccepted rs (r ∷ []) g.0 (k, tt),
        DistinctKeys-append rs r fresh g.1,
        Numbered-append 0 rs r g.2 (e ∙ ap pos (omega arith)),
      ))

host_read : (n : ℕ) (host : Text) → Holds (λ _. Unit {0}) (read_host n host)
host_read n host = any_value (read_host n host)

transform_read : (n : ℕ) (kind t : Text) → Holds (λ _. Unit {0}) (read_transform n kind t)
transform_read n kind t = any_value (read_transform n kind t)

add_route-Ruled :
    (n : ℕ) (rs : List ProjectHttpRoute) (host kind v transform : Text)
    → trim_space v ≡ v
    → Ruled rs
    → Holds Ruled (add_route n rs host kind v transform)
unfolding add_route
add_route-Ruled n rs host kind v transform t g =
    let match_type = normalize_http_route_match_type kind in
    bind-Holds (host_read n host) λ hostname _.
      bind-Holds (read_match-Fits n match_type v t) λ matched fits.
        bind-Holds (transform_read n match_type transform) λ changed _.
          let r = route_with hostname match_type matched changed (length rs) in
          keep_route-Ruled n rs r (fits r refl refl) refl g

read_route_parts-Ruled :
    (n : ℕ) (rs : List ProjectHttpRoute) (parts : List Text)
    → Ruled rs
    → Holds Ruled (read_route_parts n rs parts)
unfolding trim_space
read_route_parts-Ruled n rs [] g = erred
read_route_parts-Ruled n rs (a ∷ []) g = erred
read_route_parts-Ruled n rs (a ∷ b ∷ []) g = add_route-Ruled n rs _ b [] [] refl g
read_route_parts-Ruled n rs (a ∷ b ∷ c ∷ []) g =
    add_route-Ruled n rs _ b (trim_space c) [] (trim_space_idem c) g
read_route_parts-Ruled n rs (a ∷ b ∷ c ∷ d ∷ []) g =
    add_route-Ruled n rs _ b (trim_space c) (trim_space d) (trim_space_idem c) g
read_route_parts-Ruled n rs (a ∷ b ∷ c ∷ d ∷ e ∷ f) g = erred

read_routes-Ruled :
    (lines : List Text) (n : ℕ) (rs : List ProjectHttpRoute)
    → Ruled rs
    → Holds Ruled (read_routes n rs lines)
unfolding read_routes
read_routes-Ruled [] n rs g = held g
read_routes-Ruled (line ∷ lines) n rs g =
    if_holds (Holds Ruled) (is_blank line) (λ _. read_routes-Ruled lines (suc n) rs g)
      (λ _.
        bind-Holds (read_route_parts-Ruled n rs (split_delimited_line (trim_space line) b'|') g)
          (λ seen k. read_routes-Ruled lines (suc n) seen k))

-- Every list of route rules that the form accepts has only rules of a known match type, with an
-- absolute and trimmed path for a path rule and none for a host rule; no two rules share host, match
-- type and match value, and the priorities count the rules from 0, whatever the text is.
pub parse_http_routes_text-Ruled :
    (raw : Text) (rs : List ProjectHttpRoute) → parse_http_routes_text raw ≡ value rs → Ruled rs
unfolding parse_http_routes_text
parse_http_routes_text-Ruled raw rs h =
    Holds-value (read_routes-Ruled (split 10 raw) 1 [] (tt, tt, tt)) h
