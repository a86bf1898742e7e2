-- ===== src/Caddy/Extract.antt =====
-- internal/caddyadmin/service.go: `ExtractHTTPRoutes`, from the decoded server `srv0` of a
-- configuration.
use caddytower.Prelude.{
  Bool, true, false, not, Option, none, some, List, [], ◌∷◌, ◌++◌, map, keep, is_empty,
  if◌then◌else◌,
}
use caddytower.Prelude.Int.{pos}
use caddytower.Prelude.Sorting.{sort}
use caddytower.Prelude.Texts.{Text, codes, text_eq, text_lt, trim_space}
use caddytower.Caddy.{
  HttpRoute, Match, UriSubstring, Handler, RouteRule, Server, is_blank, route_less,
}

-- The first path of a matcher, if it is not blank.
abbrev pub first_path : List Text → Option Text
first_path [] = none
first_path (t ∷ ts) = if is_blank t then none else some (trim_space t)

abbrev prefix_kind : Option Text → Text × Text → Text × Text
prefix_kind none kind = kind
prefix_kind (some t) kind = (codes "path_prefix", t)

abbrev path_kind : Option Text → Option Text → Text × Text → Text × Text
path_kind none prefix kind = prefix_kind prefix kind
path_kind (some t) prefix kind = (codes "path_exact", t)

-- The loop over the matchers: the hosts, and the match type and value of the last path.
unfoldable pub read_matches : List Match → List Text → Text × Text → List Text × (Text × Text)
read_matches [] hosts kind = (hosts, kind)
read_matches (m ∷ ms) hosts kind =
    read_matches ms (hosts ++ m.host)
      (path_kind (first_path m.path_exact) (first_path m.path_prefix) kind)

pub record Handled : Type 0 where
  pub upstreams : List Text
  pub strip_prefix : Bool
  pub rewrite_prefix : Text

abbrev rewrite_of : List UriSubstring → Text → Text
rewrite_of [] old = old
rewrite_of (u ∷ us) old = if is_blank u.replace then old else trim_space u.replace

abbrev read_handler : Handler → Handled → Handled
read_handler h s =
    if text_eq h.handler (codes "reverse_proxy")
    then record s { upstreams = s.upstreams ++ keep (λ u. not (is_blank u)) h.upstreams }
    else if text_eq h.handler (codes "rewrite")
    then record s {
      strip_prefix = if is_blank h.strip_path_prefix then s.strip_prefix else true;
      rewrite_prefix = rewrite_of h.uri_substring s.rewrite_prefix;
    }
    else s

unfoldable pub read_handlers : List Handler → Handled → Handled
unfolding keep text_eq trim_space
read_handlers [] s = s
read_handlers (h ∷ hs) s = read_handlers hs (read_handler h s)

-- The routes of one rule: one for each host, none without a host or an upstream.
unfoldable pub extract_rule : RouteRule → List HttpRoute
unfolding read_matches read_handlers sort text_lt
extract_rule rule =
    let m = read_matches rule.matches [] (codes "host", []) in
    let h =
      read_handlers rule.handle
        (record { upstreams = []; strip_prefix = false; rewrite_prefix = [] }) in
    if is_empty m.0
    then []
    else if is_empty h.upstreams
    then []
    else map
        (λ host. record {
          host = host;
          match_type = m.1.0;
          match_value = m.1.1;
          strip_prefix = h.strip_prefix;
          rewrite_prefix = h.rewrite_prefix;
          priority = pos 0;
          upstreams = sort text_lt h.upstreams;
        })
        (sort text_lt m.0)

pub extract_all : List RouteRule → List HttpRoute
unfolding extract_rule
extract_all [] = []
extract_all (r ∷ rs) = extract_rule r ++ extract_all rs

-- `none` is a configuration without the server.
unfoldable pub extract_http_routes : Option Server → List HttpRoute
unfolding extract_all sort route_less
extract_http_routes none = []
extract_http_routes (some server) = sort route_less (extract_all server.routes)
