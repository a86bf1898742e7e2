-- ===== src/Caddy.antt =====
-- internal/caddyadmin/service.go: the routes that the controller manages in Caddy's configuration.
pub mod Merge
pub mod Extract
pub mod Client
pub mod Matching
pub mod Idempotent
pub mod Reconcile
mod Tests
use caddytower.Prelude.{
  ℕ, Bool, true, false, not, ◌||◌, Option, none, some, List, [], ◌∷◌, ◌++◌, map, length, ltb, ◌==◌,
  if◌then◌else◌,
}
use caddytower.Prelude.Int.{ℤ, ltb_ℤ, eqb_ℤ}
use caddytower.Prelude.Sorting.{sort}
use caddytower.Prelude.Texts.{
  Text, byte_length, codes, text_eq, text_lt, to_lower, trim_space, join,
}

pub record HttpRoute : Type 0 where
  pub host : Text
  pub match_type : Text
  pub match_value : Text
  pub strip_prefix : Bool
  pub rewrite_prefix : Text
  pub priority : ℤ
  pub upstreams : List Text

-- `Match`, `Handler`, `RouteRule` and `Server` of the configuration.
pub record Match : Type 0 where
  pub host : List Text
  pub path_prefix : List Text
  pub path_exact : List Text

pub record UriSubstring : Type 0 where
  pub find : Text
  pub replace : Text

pub record Handler : Type 0 where
  pub handler : Text
  pub encodings : List Text
  pub upstreams : List Text
  pub strip_path_prefix : Text
  pub uri_substring : List UriSubstring

pub record RouteRule : Type 0 where
  pub matches : List Match
  pub handle : List Handler
  pub terminal : Bool

pub record Server : Type 0 where
  pub listen : List Text
  pub routes : List RouteRule

abbrev pub is_blank : Text → Bool
is_blank t = text_eq (trim_space t) (codes "")

unfoldable pub normalized_match_type : Text → Text
unfolding text_eq trim_space
normalized_match_type value =
    let t = trim_space value in
    if text_eq t (codes "path_prefix") || text_eq t (codes "path_exact") then t else codes "host"

unfoldable pub route_key : HttpRoute → Text
unfolding normalized_match_type trim_space join
route_key r = join (codes "|") (
    trim_space (to_lower r.host)
    ∷ normalized_match_type r.match_type
    ∷ trim_space r.match_value
    ∷ [])

unfoldable pub matcher_summary : HttpRoute → Text
unfolding normalized_match_type text_eq trim_space
matcher_summary r =
    let t = normalized_match_type r.match_type in
    if text_eq t (codes "path_prefix")
    then codes "prefix " ++ trim_space r.match_value
    else if text_eq t (codes "path_exact")
    then codes "exact " ++ trim_space r.match_value
    else codes "catch-all host"

unfoldable pub route_specificity : HttpRoute → ℕ
unfolding normalized_match_type text_eq
route_specificity r =
    let t = normalized_match_type r.match_type in
    if text_eq t (codes "path_exact") then 2 else if text_eq t (codes "path_prefix") then 1 else 0

unfoldable pub route_less : HttpRoute → HttpRoute → Bool
unfolding byte_length text_eq text_lt route_specificity matcher_summary trim_space
route_less a b =
    if not (text_eq a.host b.host)
    then text_lt a.host b.host
    else if not (route_specificity a == route_specificity b)
    then ltb (route_specificity b) (route_specificity a)
    else if not (byte_length (trim_space a.match_value) == byte_length (trim_space b.match_value))
    then ltb (byte_length (trim_space b.match_value)) (byte_length (trim_space a.match_value))
    else if not (eqb_ℤ a.priority b.priority)
    then ltb_ℤ a.priority b.priority
    else text_lt (matcher_summary a) (matcher_summary b)

-- What the loop of `BuildConfig` makes of one route.
unfoldable pub build_match : HttpRoute → Match
unfolding text_eq
build_match r = record {
  host = r.host ∷ [];
  path_prefix = if text_eq r.match_type (codes "path_prefix") then r.match_value ∷ [] else [];
  path_exact = if text_eq r.match_type (codes "path_exact") then r.match_value ∷ [] else [];
}

abbrev pub encode_handler : Handler
encode_handler = record {
  handler = codes "encode";
  encodings = codes "gzip" ∷ codes "zstd" ∷ [];
  upstreams = [];
  strip_path_prefix = [];
  uri_substring = [];
}

abbrev pub rewrite_handler : HttpRoute → Handler
rewrite_handler r = record {
  handler = codes "rewrite";
  encodings = [];
  upstreams = [];
  strip_path_prefix = if r.strip_prefix then r.match_value else [];
  uri_substring =
      if is_blank r.rewrite_prefix
      then []
      else record { find = r.match_value; replace = r.rewrite_prefix } ∷ [];
}

abbrev pub proxy_handler : HttpRoute → Handler
proxy_handler r = record {
  handler = codes "reverse_proxy";
  encodings = [];
  upstreams = sort text_lt r.upstreams;
  strip_path_prefix = [];
  uri_substring = [];
}

unfoldable pub build_rule : HttpRoute → RouteRule
unfolding build_match text_eq text_lt trim_space sort
build_rule r = record {
  matches = build_match r ∷ [];
  handle =
      encode_handler
      ∷ ((if r.strip_prefix || not (is_blank r.rewrite_prefix) then rewrite_handler r ∷ [] else [])
          ++ proxy_handler r ∷ []);
  terminal = true;
}

-- The server of `BuildConfig`'s result, the only one that it has.
unfoldable pub build_config : List HttpRoute → Server
unfolding build_rule route_less sort
build_config routes = record {
  listen = codes ":80" ∷ codes ":443" ∷ [];
  routes = map build_rule (sort route_less routes);
}
