-- ===== src/Projects/Inputs.antt =====
-- internal/projects/service.go: the texts of a project's form, `parseMountsText`,
-- `parseHTTPRoutesText` and `parseEnvText`, and the texts that the form shows again.
pub mod Accepted
pub mod Rules
pub mod Env
pub mod Sealed
pub mod Mounts
pub mod Shown
pub mod Form
pub mod Records
mod Tests
use caddytower.Prelude.{
  ℕ, zero, suc, ◌+◌, leb, ◌==◌, Bool, true, false, not, ◌&&◌, ◌||◌, Option, none, some, List, [],
  ◌∷◌, ◌++◌, map, length, is_empty, exists, drop, if◌then◌else◌,
}
use caddytower.Prelude.Int.{ℤ, pos}
use caddytower.Prelude.Results.{Result, value, error, return, ◌>>=◌, ◌>>◌}
use caddytower.Prelude.Texts.{
  Text, codes, text_eq, split, join, trim_space, to_lower, has_prefix, equal_fold, contains_char,
  cut, lower,
}
use caddytower.Caddy.{is_blank}
use caddytower.Projects.{ProjectMount, ProjectHttpRoute}
use caddytower.Projects.Routes.{normalize_hostname, normalize_http_route_match_type}

-- What is refused, with the number of its line.
pub data InputError : Type 0 where
  invalid_mount mount_source mount_target reserved_target : ℕ → InputError
  repeated_target mount_mode : ℕ → InputError
  invalid_route route_host host_with_value route_value route_type : ℕ → InputError
  strip_not_prefix rewrite_not_path rewrite_target unknown_transform repeated_route : ℕ → InputError

abbrev pub check : Bool → InputError → Result InputError (Unit {0})
check holds e = if holds then value tt else error e

unfoldable pub split_delimited_line : Text → ℕ → List Text
unfolding split trim_space
split_delimited_line line delimiter = map trim_space (split delimiter line)

unfoldable pub is_reserved_mount_target : Text → Bool
unfolding text_eq trim_space
is_reserved_mount_target target =
    text_eq (trim_space target) (codes "/var/run/docker.sock")
    || text_eq (trim_space target) (codes "/data")

abbrev pub is_absolute : Text → Bool
unfolding has_prefix
is_absolute path = has_prefix path (codes "/")

abbrev pub has_target : Text → ProjectMount → Bool
has_target target m = text_eq m.target target

-- `true` for read only.
unfoldable pub read_mode : ℕ → Text → Result InputError Bool
unfolding text_eq
read_mode n mode =
    if is_empty mode || text_eq mode (codes "rw") || text_eq mode (codes "readwrite")
    then value false
    else if text_eq mode (codes "ro") || text_eq mode (codes "readonly")
    then value true
    else error (mount_mode n)

-- A mount whose target is not among those seen.
unfoldable pub add_mount :
    ℕ → List ProjectMount → Text → Text → Text → Result InputError (List ProjectMount)
unfolding is_reserved_mount_target read_mode exists text_eq has_prefix
add_mount n mounts source target mode = do
  check (is_absolute source) (mount_source n)
  check (is_absolute target) (mount_target n)
  check (not (is_reserved_mount_target target)) (reserved_target n)
  check (not (exists (has_target target) mounts)) (repeated_target n)
  read_only ← read_mode n mode
  return (mounts ++ record { source = source; target = target; read_only = read_only } ∷ [])

abbrev pub read_mount_parts :
    ℕ → List ProjectMount → List Text → Result InputError (List ProjectMount)
read_mount_parts n mounts (source ∷ target ∷ []) =
    add_mount n mounts (trim_space source) (trim_space target) (codes "rw")
read_mount_parts n mounts (source ∷ target ∷ mode ∷ []) =
    add_mount n mounts (trim_space source) (trim_space target) (trim_space (to_lower mode))
read_mount_parts n mounts _ = error (invalid_mount n)

unfoldable pub read_mounts :
    ℕ → List ProjectMount → List Text → Result InputError (List ProjectMount)
unfolding add_mount split_delimited_line trim_space lower text_eq
read_mounts n mounts [] = value mounts
read_mounts n mounts (line ∷ lines) =
    if is_blank line
    then read_mounts (suc n) mounts lines
    else read_mount_parts n mounts (split_delimited_line (trim_space line) b'|') >>= λ seen.
        read_mounts (suc n) seen lines

unfoldable pub parse_mounts_text : Text → Result InputError (List ProjectMount)
unfolding read_mounts split
parse_mounts_text raw = read_mounts 1 [] (split 10 raw)

abbrev pub mode_of : Bool → Text
mode_of read_only = if read_only then codes "ro" else codes "rw"

-- `fmt.Sprintf("%s | %s | %s", ...)`.
unfoldable pub mount_line : ProjectMount → Text
mount_line m = m.source ++ codes " | " ++ m.target ++ codes " | " ++ mode_of m.read_only

unfoldable pub mounts_text : List ProjectMount → Text
unfolding mount_line join
mounts_text mounts = if is_empty mounts then [] else join (10 ∷ []) (map mount_line mounts)

-- The host of a rule: empty for all the domains of the project.
abbrev scoped : Text → Text
scoped host = if text_eq host (codes "@domains") then [] else host

abbrev named_host : ℕ → Text → Result InputError Text
named_host n host =
    if is_empty host || contains_char b' ' host then error (route_host n) else value host

unfoldable pub read_host : ℕ → Text → Result InputError Text
unfolding normalize_hostname contains_char text_eq
read_host n host =
    if is_empty (scoped host) then value [] else named_host n (normalize_hostname (scoped host))

unfoldable pub read_match : ℕ → Text → Text → Result InputError Text
unfolding text_eq has_prefix
read_match n match_type match_value =
    if text_eq match_type (codes "host")
    then (if is_empty match_value then value [] else error (host_with_value n))
    else if text_eq match_type (codes "path_prefix") || text_eq match_type (codes "path_exact")
    then (if is_absolute match_value then value match_value else error (route_value n))
    else error (route_type n)

-- What is stripped or rewritten: `StripPrefix` and `RewritePrefix`.
unfoldable pub read_transform : ℕ → Text → Text → Result InputError (Bool × Text)
unfolding text_eq has_prefix equal_fold trim_space lower
read_transform n match_type transform =
    let target = trim_space (drop 8 transform) in
    if is_empty transform
    then value (false, [])
    else if equal_fold transform (codes "strip")
    then (if text_eq match_type (codes "path_prefix")
        then value (true, [])
        else error (strip_not_prefix n))
    else if has_prefix (to_lower transform) (codes "rewrite=")
    then (if text_eq match_type (codes "host")
        then error (rewrite_not_path n)
        else if is_absolute target
        then value (false, target)
        else error (rewrite_target n))
    else error (unknown_transform n)

abbrev pub same_key : ProjectHttpRoute → ProjectHttpRoute → Bool
same_key a b =
    text_eq (join (codes "|") (a.hostname ∷ a.match_type ∷ a.match_value ∷ []))
      (join (codes "|") (b.hostname ∷ b.match_type ∷ b.match_value ∷ []))

abbrev pub route_with : Text → Text → Text → Bool × Text → ℕ → ProjectHttpRoute
route_with hostname match_type match_value changed priority = record {
  hostname = hostname;
  match_type = match_type;
  match_value = match_value;
  strip_prefix = changed.0;
  rewrite_prefix = changed.1;
  priority = pos priority;
}

unfoldable pub keep_route :
    ℕ → List ProjectHttpRoute → ProjectHttpRoute → Result InputError (List ProjectHttpRoute)
unfolding exists join text_eq
keep_route n routes route =
    if exists (same_key route) routes
    then error (repeated_route n)
    else value (routes ++ route ∷ [])

unfoldable pub add_route :
    ℕ
    → List ProjectHttpRoute
    → Text
    → Text
    → Text
    → Text
    → Result InputError (List ProjectHttpRoute)
unfolding read_host read_match read_transform normalize_http_route_match_type keep_route trim_space
add_route n routes host raw_type match_value transform = do
  hostname ← read_host n host
  matched ← read_match n (normalize_http_route_match_type raw_type) match_value
  changed ← read_transform n (normalize_http_route_match_type raw_type) transform
  keep_route n routes (
      route_with hostname (normalize_http_route_match_type raw_type) matched changed
        (length routes))

abbrev pub read_route_parts :
    ℕ → List ProjectHttpRoute → List Text → Result InputError (List ProjectHttpRoute)
read_route_parts n routes (host ∷ kind ∷ []) = add_route n routes (trim_space host) kind [] []
read_route_parts n routes (host ∷ kind ∷ matched ∷ []) =
    add_route n routes (trim_space host) kind (trim_space matched) []
read_route_parts n routes (host ∷ kind ∷ matched ∷ transform ∷ []) =
    add_route n routes (trim_space host) kind (trim_space matched) (trim_space transform)
read_route_parts n routes _ = error (invalid_route n)

unfoldable pub read_routes :
    ℕ → List ProjectHttpRoute → List Text → Result InputError (List ProjectHttpRoute)
unfolding add_route split_delimited_line trim_space text_eq
read_routes n routes [] = value routes
read_routes n routes (line ∷ lines) =
    if is_blank line
    then read_routes (suc n) routes lines
    else read_route_parts n routes (split_delimited_line (trim_space line) b'|') >>= λ seen.
        read_routes (suc n) seen lines

unfoldable pub parse_http_routes_text : Text → Result InputError (List ProjectHttpRoute)
unfolding read_routes split
parse_http_routes_text raw = read_routes 1 [] (split 10 raw)
