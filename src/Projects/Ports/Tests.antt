-- ===== src/Projects/Ports/Tests.antt =====
-- Two mappings in an order that is not theirs, with blanks and a blank line.
use caddytower.Prelude.{ℕ, ◌≡◌, refl, [], ◌∷◌, ◌++◌}
use caddytower.Prelude.Texts.{Text, codes, text_eq}
use caddytower.Projects.{ProjectPort}
use caddytower.Projects.Ports.{
  accepted, refused, duplicate_host_port, invalid_host_port, parse_port_mappings,
}
use caddytower.Projects.Ports.Accepted.{Published, parse_port_mappings-Published}

abbrev mapping : ℕ → ℕ → ProjectPort
mapping h c = record { proto = codes "tcp"; host_port = h; container_port = c }

abbrev raw : Text
raw = codes "8443: 443" ++ 10 ∷ codes " " ++ 10 ∷ codes "+80:8080"

parsed : parse_port_mappings raw (codes "tcp") ≡ accepted (mapping 80 8080 ∷ mapping 8443 443 ∷ [])
unfolding parse_port_mappings text_eq
parsed = refl

refused_twice : parse_port_mappings (codes "80:1,80:2") (codes "tcp") ≡ refused duplicate_host_port
unfolding parse_port_mappings text_eq
refused_twice = refl

refused_range : parse_port_mappings (codes "65536:1") (codes "tcp") ≡ refused invalid_host_port
unfolding parse_port_mappings text_eq
refused_range = refl

parse_port_mappings-Published_example :
    Published (codes "tcp") (mapping 80 8080 ∷ mapping 8443 443 ∷ [])
parse_port_mappings-Published_example =
    parse_port_mappings-Published raw (codes "tcp") (mapping 80 8080 ∷ mapping 8443 443 ∷ []) parsed
