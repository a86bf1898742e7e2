-- ===== src/Projects/Ports.antt =====
-- internal/projects/service.go: `parsePortMappings`, the published ports of a TCP or UDP project.
pub mod Accepted
mod Tests
use caddytower.Prelude.{
  ℕ, zero, suc, ◌+◌, ◌*◌, ◌-◌, ltb, leb, ◌==◌, Bool, true, false, not, ◌&&◌, ◌||◌, Option, none,
  some, List, [], ◌∷◌, ◌++◌, keep, is_empty, exists, if◌then◌else◌,
}
use caddytower.Prelude.Int.{ℤ, pos, negsuc}
use caddytower.Prelude.Decimal.{atoi}
use caddytower.Prelude.Sorting.{sort}
use caddytower.Prelude.Texts.{Text, codes, split, trim_space, fields_func}
use caddytower.Caddy.{is_blank}
use caddytower.Projects.{ProjectPort}

pub data PortError : Type 0 where
  no_mapping invalid_mapping invalid_host_port invalid_container_port : PortError
  duplicate_mapping duplicate_host_port : PortError

pub data Parsed : Type 0 where
  accepted : List ProjectPort → Parsed
  refused : PortError → Parsed

abbrev pub port_of : Option ℤ → Option ℕ
port_of none = none
port_of (some (negsuc n)) = none
port_of (some (pos n)) = if leb 1 n && leb n 65535 then some n else none

-- A port between 1 and 65535.
unfoldable pub parse_port : Text → Option ℕ
unfolding atoi trim_space
parse_port t = port_of (atoi (trim_space t))

abbrev pub is_separator : ℕ → Bool
is_separator c = c == 10 || c == 13 || c == b','

abbrev pub has_host_port : ℕ → ProjectPort → Bool
has_host_port n p = p.host_port == n

abbrev pub is_mapping : ℕ → ℕ → ProjectPort → Bool
is_mapping h c p = p.host_port == h && p.container_port == c

-- Adds a mapping whose ports are valid, unless it or its host port was seen.
unfoldable pub add_mapping : Text → List ProjectPort → ℕ → ℕ → Parsed
unfolding exists
add_mapping proto ports h c =
    if exists (is_mapping h c) ports
    then refused duplicate_mapping
    else if exists (has_host_port h) ports
    then refused duplicate_host_port
    else accepted (ports ++ record { proto = proto; host_port = h; container_port = c } ∷ [])

abbrev with_container : Text → List ProjectPort → ℕ → Option ℕ → Parsed
with_container proto ports h none = refused invalid_container_port
with_container proto ports h (some c) = add_mapping proto ports h c

abbrev with_host : Text → List ProjectPort → Option ℕ → Text → Parsed
with_host proto ports none right = refused invalid_host_port
with_host proto ports (some h) right = with_container proto ports h (parse_port right)

abbrev read_parts : Text → List ProjectPort → List Text → Parsed
read_parts proto ports (left ∷ right ∷ []) = with_host proto ports (parse_port left) right
read_parts proto ports _ = refused invalid_mapping

-- One line that is not blank.
unfoldable pub read_line : Text → List ProjectPort → Text → Parsed
unfolding parse_port add_mapping split trim_space
read_line proto ports line = read_parts proto ports (split b':' (trim_space line))

abbrev and_then : Parsed → (List ProjectPort → Parsed) → Parsed
and_then (accepted ports) k = k ports
and_then (refused e) k = refused e

unfoldable pub read_lines : Text → List ProjectPort → List Text → Parsed
unfolding read_line
read_lines proto ports [] = accepted ports
read_lines proto ports (line ∷ lines) =
    if is_blank line
    then read_lines proto ports lines
    else and_then (read_line proto ports line) (λ seen. read_lines proto seen lines)

abbrev pub port_less : ProjectPort → ProjectPort → Bool
port_less a b =
    if not (a.host_port == b.host_port)
    then ltb a.host_port b.host_port
    else ltb a.container_port b.container_port

abbrev finish : List ProjectPort → Parsed
finish ports = if is_empty ports then refused no_mapping else accepted (sort port_less ports)

unfoldable pub parse_port_mappings : Text → Text → Parsed
unfolding fields_func read_lines sort
parse_port_mappings raw proto =
    if is_empty (fields_func is_separator raw)
    then refused no_mapping
    else and_then (read_lines proto [] (fields_func is_separator raw)) finish
