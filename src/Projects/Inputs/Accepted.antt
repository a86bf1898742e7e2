-- ===== src/Projects/Inputs/Accepted.antt =====
-- The mounts that the form accepts (internal/projects/service.go).
use caddytower.Prelude.{
  map, ℕ, suc, ◌≡◌, refl, Bool, true, false, not, List, [], ◌∷◌, ◌++◌, exists, All, All-append,
  if_holds, arith,
}
use caddytower.Prelude.Results.{
  Result, value, error, Holds, held, erred, bind-Holds, then-Holds, Holds-value,
}
use caddytower.Prelude.Texts.{Text, codes, split, trim_space, to_lower}
use caddytower.Prelude.Trim.{trim_space_idem, Lacks, split-Lacks, All-trim_space, All-split}
use caddytower.Caddy.{is_blank}
use caddytower.Projects.{ProjectMount}
use caddytower.Projects.Inputs.{
  InputError, check, is_absolute, is_reserved_mount_target, has_target, read_mode, add_mount,
  read_mount_parts, read_mounts, parse_mounts_text, split_delimited_line,
}

pub any_value : {A : Type 0} (r : Result InputError A) → Holds (λ _. Unit {0}) r
any_value (value a) = held tt
any_value (error e) = erred

-- A text on one line without a bar.
abbrev pub IsCell : Text → Type 0
IsCell s = Lacks b'|' s × Lacks 10 s

-- Both paths are absolute, trimmed and without bars and line ends, and the target is not reserved.
abbrev pub IsMount : ProjectMount → Type 0
IsMount m =
    (is_absolute m.source ≡ true)
    × (is_absolute m.target ≡ true)
    × (is_reserved_mount_target m.target ≡ false)
    × (trim_space m.source ≡ m.source)
    × (trim_space m.target ≡ m.target)
    × IsCell m.source
    × IsCell m.target

-- No target stands twice.
abbrev pub OneEach : List ProjectMount → Type 0
OneEach [] = Unit
OneEach (m ∷ ms) = All (λ k. has_target k.target m ≡ false) ms × OneEach ms

abbrev pub Mounted : List ProjectMount → Type 0
Mounted ms = All IsMount ms × OneEach ms

OneEach-append :
    (ms : List ProjectMount) (m : ProjectMount)
    → exists (has_target m.target) ms ≡ false
    → OneEach ms
    → OneEach (ms ++ m ∷ [])
unfolding exists
OneEach-append [] m e d = (tt, tt)
OneEach-append (k ∷ ks) m e d = (
  All-append (λ j. has_target j.target k ≡ false) ks (m ∷ []) d.0 (ground arith, tt),
  OneEach-append ks m (ground arith) d.1,
)

pub check-true : (b : Bool) (e : InputError) → Holds (λ _. b ≡ true) (check b e)
check-true true e = held refl
check-true false e = erred

mode_read : (n : ℕ) (mode : Text) → Holds (λ _. Unit {0}) (read_mode n mode)
mode_read n mode = any_value (read_mode n mode)

add_mount-Mounted :
    (n : ℕ) (ms : List ProjectMount) (source target mode : Text)
    → trim_space source ≡ source
    → trim_space target ≡ target
    → IsCell source
    → IsCell target
    → Mounted ms
    → Holds Mounted (add_mount n ms source target mode)
unfolding add_mount
add_mount-Mounted n ms source target mode s t a b g =
    then-Holds (check-true (is_absolute source) _) λ from.
      then-Holds (check-true (is_absolute target) _) λ to.
        then-Holds (check-true (not (is_reserved_mount_target target)) _) λ free.
          then-Holds (check-true (not (exists (has_target target) ms)) _) λ fresh.
            bind-Holds (mode_read n mode) λ read_only _. held (
              All-append IsMount ms _ g.0 ((from, to, ground arith, s, t, a, b), tt),
              OneEach-append ms (record { source = source; target = target; read_only = read_only })
                  (ground arith) g.1,
            )

trim_space-IsCell : (s : Text) → IsCell s → IsCell (trim_space s)
trim_space-IsCell s h = (All-trim_space _ s h.0, All-trim_space _ s h.1)

read_mount_parts-Mounted :
    (n : ℕ) (ms : List ProjectMount) (parts : List Text)
    → All IsCell parts
    → Mounted ms
    → Holds Mounted (read_mount_parts n ms parts)
read_mount_parts-Mounted n ms [] h g = erred
read_mount_parts-Mounted n ms (a ∷ []) h g = erred
read_mount_parts-Mounted n ms (a ∷ b ∷ []) h g =
    add_mount-Mounted n ms (trim_space a) (trim_space b) (codes "rw") (trim_space_idem a)
      (trim_space_idem b) (trim_space-IsCell a h.0) (trim_space-IsCell b h.1.0) g
read_mount_parts-Mounted n ms (a ∷ b ∷ c ∷ []) h g =
    add_mount-Mounted n ms (trim_space a) (trim_space b) (trim_space (to_lower c))
      (trim_space_idem a) (trim_space_idem b) (trim_space-IsCell a h.0) (trim_space-IsCell b h.1.0)
      g
read_mount_parts-Mounted n ms (a ∷ b ∷ c ∷ d ∷ e) h g = erred

cells_trimmed :
    (ws : List Text) → All (Lacks b'|') ws → All (Lacks 10) ws → All IsCell (map trim_space ws)
cells_trimmed [] h k = tt
cells_trimmed (w ∷ ws) h k = (trim_space-IsCell w (h.0, k.0), cells_trimmed ws h.1 k.1)

line_cells :
    (line : Text) → Lacks 10 line → All IsCell (split_delimited_line (trim_space line) b'|')
unfolding split_delimited_line
line_cells line h =
    cells_trimmed (split b'|' (trim_space line)) (split-Lacks b'|' (trim_space line))
      (All-split _ b'|' (trim_space line) (All-trim_space _ line h))

read_mounts-Mounted :
    (lines : List Text) (n : ℕ) (ms : List ProjectMount)
    → All (Lacks 10) lines
    → Mounted ms
    → Holds Mounted (read_mounts n ms lines)
unfolding read_mounts
read_mounts-Mounted [] n ms h g = held g
read_mounts-Mounted (line ∷ lines) n ms h g =
    if_holds (Holds Mounted) (is_blank line) (λ _. read_mounts-Mounted lines (suc n) ms h.1 g)
      (λ _.
        bind-Holds
          (read_mount_parts-Mounted n ms (split_delimited_line (trim_space line) b'|')
            (line_cells line h.0) g)
          (λ seen k. read_mounts-Mounted lines (suc n) seen h.1 k))

-- Every list of mounts that the form accepts has absolute and trimmed sources and targets without
-- bars and line ends, no target that is reserved, and no target twice, whatever the text is.
pub parse_mounts_text-Mounted :
    (raw : Text) (ms : List ProjectMount) → parse_mounts_text raw ≡ value ms → Mounted ms
unfolding parse_mounts_text
parse_mounts_text-Mounted raw ms h =
    Holds-value (read_mounts-Mounted (split 10 raw) 1 [] (split-Lacks 10 raw) (tt, tt)) h
