-- ===== src/Projects/Ports/Accepted.antt =====
-- The mappings that `parsePortMappings` accepts (internal/projects/service.go).
use caddytower.Prelude.{
  ℕ, ◌≤◌, ◌<◌, ◌≡◌, refl, sym, ◌∙◌, ap, inl, inr, false, ◌&&◌, Option, none, some, List, [], ◌∷◌,
  ◌++◌, All, All-append, All-mono, is_empty, exists, arith, Bool-cases, leb,
}
use mathlib.Core.Path.{subst}
use caddytower.Prelude.Int.{ℤ, pos, negsuc}
use caddytower.Prelude.Decimal.{atoi}
use caddytower.Prelude.Sorting.{sort, insert_sorted, All-insert_sorted, All-sort}
use caddytower.Prelude.Texts.{Text, split, trim_space, fields_func}
use caddytower.Caddy.{is_blank}
use caddytower.Projects.{ProjectPort}
use caddytower.Projects.Ports.{
  Parsed, accepted, refused, port_of, parse_port, is_separator, has_host_port, is_mapping,
  add_mapping, with_container, with_host, read_parts, read_line, and_then, read_lines, port_less,
  finish, parse_port_mappings,
}

-- Both ports are valid, and the protocol is the project's.
abbrev pub IsMapping : Text → ProjectPort → Type 0
IsMapping proto p =
    (p.proto ≡ proto)
    × (1 ≤ p.host_port)
    × (p.host_port ≤ 65535)
    × (1 ≤ p.container_port)
    × (p.container_port ≤ 65535)

-- No host port stands twice.
abbrev Distinct : List ProjectPort → Type 0
Distinct [] = Unit
Distinct (p ∷ ps) = All (λ q. has_host_port q.host_port p ≡ false) ps × Distinct ps

abbrev pub Ascending : List ProjectPort → Type 0
Ascending [] = Unit
Ascending (p ∷ ps) = All (λ q. p.host_port < q.host_port) ps × Ascending ps

abbrev Holds : (List ProjectPort → Type 0) → Parsed → Type 0
Holds P (accepted ps) = P ps
Holds P (refused e) = Unit

abbrev Good : Text → List ProjectPort → Type 0
Good proto ps = All (IsMapping proto) ps × Distinct ps

abbrev value_or : ℕ → Option ℕ → ℕ
value_or d none = d
value_or d (some n) = n

port_of-valid : (o : Option ℤ) (n : ℕ) → port_of o ≡ some n → (1 ≤ n) × (n ≤ 65535)
port_of-valid none n h = absurd cc
port_of-valid (some (negsuc k)) n h = absurd cc
port_of-valid (some (pos k)) n h = elim (Bool-cases (leb 1 k && leb k 65535)) [
  | inl e ↦
      let value : port_of (some (pos k)) ≡ some k = rw e refl in
      let same : k ≡ n = ap (value_or 0) (sym value ∙ h) in
      subst (λ (m : ℕ). (1 ≤ m) × (m ≤ 65535)) same (ground arith)
  | inr e ↦ absurd (ground arith)
]

Distinct-append :
    (ps : List ProjectPort) (p : ProjectPort)
    → exists (has_host_port p.host_port) ps ≡ false
    → Distinct ps
    → Distinct (ps ++ p ∷ [])
unfolding exists
Distinct-append [] p e d = (tt, tt)
Distinct-append (q ∷ qs) p e d = (
  All-append (λ r. has_host_port r.host_port q ≡ false) qs (p ∷ []) d.0 (ground arith, tt),
  Distinct-append qs p (ground arith) d.1,
)

module _ (proto : Text) where
  add_mapping-Good :
      (ps : List ProjectPort) (h c : ℕ)
      → (1 ≤ h) × (h ≤ 65535)
      → (1 ≤ c) × (c ≤ 65535)
      → Good proto ps
      → Holds (Good proto) (add_mapping proto ps h c)
  unfolding add_mapping
  add_mapping-Good ps h c vh vc g = elim (Bool-cases (exists (is_mapping h c) ps)) [
    | inl e ↦ rw e tt
    | inr e ↦ rw e (elim (Bool-cases (exists (has_host_port h) ps)) [
      | inl seen ↦ rw seen tt
      | inr fresh ↦ rw fresh (
        All-append (IsMapping proto) ps _ g.0 ((refl, vh.0, vh.1, vc.0, vc.1), tt),
        Distinct-append ps (record { proto = proto; host_port = h; container_port = c }) fresh g.1,
      )
    ])
  ]

  with_container-Good :
      (ps : List ProjectPort) (h : ℕ) (o : Option ℕ)
      → (1 ≤ h) × (h ≤ 65535)
      → ((c : ℕ) → o ≡ some c → (1 ≤ c) × (c ≤ 65535))
      → Good proto ps
      → Holds (Good proto) (with_container proto ps h o)
  with_container-Good ps h none vh vc g = tt
  with_container-Good ps h (some c) vh vc g = add_mapping-Good ps h c vh (vc c refl) g

  parse_port-valid : (t : Text) (n : ℕ) → parse_port t ≡ some n → (1 ≤ n) × (n ≤ 65535)
  unfolding parse_port
  parse_port-valid t n h = port_of-valid (atoi (trim_space t)) n h

  with_host-Good :
      (ps : List ProjectPort) (o : Option ℕ) (right : Text)
      → ((h : ℕ) → o ≡ some h → (1 ≤ h) × (h ≤ 65535))
      → Good proto ps
      → Holds (Good proto) (with_host proto ps o right)
  with_host-Good ps none right vh g = tt
  with_host-Good ps (some h) right vh g =
      with_container-Good ps h (parse_port right) (vh h refl) (parse_port-valid right) g

  read_parts-Good :
      (ps : List ProjectPort) (parts : List Text)
      → Good proto ps
      → Holds (Good proto) (read_parts proto ps parts)
  read_parts-Good ps [] g = tt
  read_parts-Good ps (a ∷ []) g = tt
  read_parts-Good ps (a ∷ b ∷ []) g = with_host-Good ps (parse_port a) b (parse_port-valid a) g
  read_parts-Good ps (a ∷ b ∷ c ∷ d) g = tt

  and_then-Holds :
      (P Q : List ProjectPort → Type 0) (r : Parsed) (k : List ProjectPort → Parsed)
      → Holds P r
      → ((ps : List ProjectPort) → P ps → Holds Q (k ps))
      → Holds Q (and_then r k)
  and_then-Holds P Q (accepted ps) k h f = f ps h
  and_then-Holds P Q (refused e) k h f = tt

  read_lines-Good :
      (lines : List Text) (ps : List ProjectPort)
      → Good proto ps
      → Holds (Good proto) (read_lines proto ps lines)
  unfolding read_lines read_line
  read_lines-Good [] ps g = g
  read_lines-Good (line ∷ lines) ps g = elim (Bool-cases (is_blank line)) [
    | inl e ↦ rw e (read_lines-Good lines ps g)
    | inr e ↦ rw e (
        and_then-Holds (Good proto) (Good proto) (read_line proto ps line)
          (λ seen. read_lines proto seen lines)
          (read_parts-Good ps (split b':' (trim_space line)) g)
          (λ qs k. read_lines-Good lines qs k))
  ]

insert_sorted-Ascending :
    (p : ProjectPort) (ps : List ProjectPort)
    → All (λ q. has_host_port q.host_port p ≡ false) ps
    → Ascending ps
    → Ascending (insert_sorted port_less p ps)
unfolding insert_sorted
insert_sorted-Ascending p [] d a = (tt, tt)
insert_sorted-Ascending p (q ∷ qs) d a = elim (Bool-cases (port_less q p)) [
  | inl e ↦ rw e (
    All-insert_sorted (λ r. q.host_port < r.host_port) port_less p qs (let k = d.0 in ground arith)
        a.0,
    insert_sorted-Ascending p qs d.1 a.1,
  )
  | inr e ↦
      let first : p.host_port < q.host_port = let k = d.0 in ground arith in
      rw e ((first, All-mono qs (λ r h. omega arith) a.0), a)
]

sort-Ascending : (ps : List ProjectPort) → Distinct ps → Ascending (sort port_less ps)
unfolding sort
sort-Ascending [] d = tt
sort-Ascending (p ∷ ps) d =
    insert_sorted-Ascending p (sort port_less ps)
      (All-sort (λ q. has_host_port q.host_port p ≡ false) port_less ps d.0) (sort-Ascending ps d.1)

insert_sorted-filled :
    (p : ProjectPort) (ps : List ProjectPort) → is_empty (insert_sorted port_less p ps) ≡ false
unfolding insert_sorted
insert_sorted-filled p [] = refl
insert_sorted-filled p (q ∷ qs) = elim (Bool-cases (port_less q p)) [
  | inl e ↦ rw e refl
  | inr e ↦ rw e refl
]

sort-filled : (ps : List ProjectPort) → is_empty ps ≡ false → is_empty (sort port_less ps) ≡ false
unfolding sort
sort-filled [] h = h
sort-filled (p ∷ ps) h = insert_sorted-filled p (sort port_less ps)

-- There is a mapping, every mapping is valid, and the host ports rise from each to the next.
abbrev pub Published : Text → List ProjectPort → Type 0
Published proto ps = All (IsMapping proto) ps × Ascending ps × (is_empty ps ≡ false)

finish-Published :
    (proto : Text) (ps : List ProjectPort) → Good proto ps → Holds (Published proto) (finish ps)
finish-Published proto ps g = elim (Bool-cases (is_empty ps)) [
  | inl e ↦ rw e tt
  | inr e ↦
      rw e (All-sort (IsMapping proto) port_less ps g.0, sort-Ascending ps g.1, sort-filled ps e)
]

parse-Holds : (raw proto : Text) → Holds (Published proto) (parse_port_mappings raw proto)
unfolding parse_port_mappings
parse-Holds raw proto = elim (Bool-cases (is_empty (fields_func is_separator raw))) [
  | inl e ↦ rw e tt
  | inr e ↦ rw e (
      and_then-Holds proto (Good proto) (Published proto)
        (read_lines proto [] (fields_func is_separator raw)) finish
        (read_lines-Good proto (fields_func is_separator raw) [] (tt, tt)) (finish-Published proto))
]

-- Every list of mappings that is accepted has a mapping, ports between 1 and 65535, the protocol of
-- the project, and host ports that rise strictly from each mapping to the next, so that none stands
-- twice, whatever the text is.
pub parse_port_mappings-Published :
    (raw proto : Text) (ps : List ProjectPort)
    → parse_port_mappings raw proto ≡ accepted ps
    → Published proto ps
parse_port_mappings-Published raw proto ps h =
    subst (λ (r : Parsed). Holds (Published proto) r) h (parse-Holds raw proto)
