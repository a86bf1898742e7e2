-- ===== src/Projects/Inputs/Mounts.antt =====
-- The mounts that the form shows are read back (`mountsText`, `parseMountsText`,
-- internal/projects/service.go).
use mathlib.Core.Path.{ap₂}
use caddytower.Prelude.{
  ℕ, ◌≡◌, refl, sym, ap, ◌∙◌, Bool, true, false, ◌==◌, List, [], ◌∷◌, ◌++◌, map, exists, All-append,
  arith,
}
use caddytower.Prelude.Results.{value}
use caddytower.Prelude.Texts.{
  Text, codes, text_eq, split, trim_space, to_lower, lower, has_prefix, is_space,
}
use caddytower.Prelude.Trim.{
  Lacks, split-Part, split-Last, trim_space-kept, trim_space-snoc, trim_space-cons,
}
use caddytower.Caddy.{is_blank}
use caddytower.Projects.{ProjectMount}
use caddytower.Projects.Inputs.{
  is_absolute, has_target, read_mode, add_mount, read_mount_parts, split_delimited_line, mode_of,
  mount_line,
}
use caddytower.Projects.Inputs.Accepted.{IsMount}

abbrev pub bar : Text
bar = 32 ∷ 124 ∷ 32 ∷ []

target_cells : (t m : Text) → t ++ bar ++ m ≡ t ++ 32 ∷ [] ++ 124 ∷ [] ++ (32 ∷ m)
target_cells [] m = refl
target_cells (c ∷ t) m = ap (λ s. c ∷ s) (target_cells t m)

-- A line as three cells between bars.
line_cells :
    (s t m : Text)
    → s ++ bar ++ t ++ bar ++ m
      ≡ s ++ 32 ∷ [] ++ 124 ∷ [] ++ (32 ∷ t ++ 32 ∷ [] ++ 124 ∷ [] ++ (32 ∷ m))
line_cells [] t m = ap (λ u. 32 ∷ 124 ∷ 32 ∷ u) (target_cells t m)
line_cells (c ∷ s) t m = ap (λ u. c ∷ u) (line_cells s t m)

cell-split :
    (w s : Text)
    → Lacks 124 w
    → split 124 (w ++ 32 ∷ [] ++ 124 ∷ [] ++ s) ≡ (w ++ 32 ∷ []) ∷ split 124 s
cell-split w s h =
    split-Part 124 (w ++ 32 ∷ []) s (All-append (λ c. 124 == c ≡ false) w (32 ∷ []) h (refl, tt))

line-split :
    (s t m : Text)
    → Lacks 124 s
    → Lacks 124 t
    → Lacks 124 m
    → split 124 (s ++ bar ++ t ++ bar ++ m) ≡ (s ++ 32 ∷ []) ∷ ((32 ∷ t) ++ 32 ∷ []) ∷ (32 ∷ m) ∷ []
line-split s t m h k l =
    ap (split 124) (line_cells s t m)
    ∙ cell-split s _ h
    ∙ ap (λ (ws : List Text). (s ++ 32 ∷ []) ∷ ws)
        (cell-split (32 ∷ t) (32 ∷ m) (refl, k)
          ∙ ap (λ (ws : List Text). ((32 ∷ t) ++ 32 ∷ []) ∷ ws) (split-Last 124 (32 ∷ m) (refl, l)))

cells-trimmed :
    (s t m : Text)
    → Lacks 124 s
    → Lacks 124 t
    → Lacks 124 m
    → split_delimited_line (s ++ bar ++ t ++ bar ++ m) 124
      ≡ trim_space s ∷ trim_space t ∷ trim_space m ∷ []
unfolding split_delimited_line is_space
cells-trimmed s t m h k l =
    ap (map trim_space) (line-split s t m h k l)
    ∙ rw
        (
          trim_space-snoc s 32 refl,
          trim_space-snoc (32 ∷ t) 32 refl,
          trim_space-cons 32 t refl,
          trim_space-cons 32 m refl,
        )
        refl

last_two : (s : Text) (a b : ℕ) → s ++ a ∷ b ∷ [] ≡ (s ++ a ∷ []) ++ b ∷ []
last_two [] a b = refl
last_two (c ∷ s) a b = ap (λ t. c ∷ t) (last_two s a b)

slash : (c : ℕ) (s : Text) → is_absolute (c ∷ s) ≡ true → is_space c ≡ false
unfolding has_prefix is_space
slash c s h = ground arith

line-kept :
    (s t : Text) (a b : ℕ)
    → is_absolute s ≡ true
    → is_space b ≡ false
    → trim_space (s ++ bar ++ t ++ bar ++ (a ∷ b ∷ [])) ≡ s ++ bar ++ t ++ bar ++ (a ∷ b ∷ [])
unfolding has_prefix
line-kept [] t a b h e = absurd cc
line-kept (c ∷ s) t a b h e =
    ap trim_space (ap (λ u. c ∷ u) (last_two (s ++ bar ++ t ++ bar) a b))
    ∙ trim_space-kept c b (s ++ bar ++ t ++ bar ++ a ∷ []) (slash c s h) e
    ∙ sym (ap (λ u. c ∷ u) (last_two (s ++ bar ++ t ++ bar) a b))

abbrev of_cells : Text → Text → Bool → ProjectMount
of_cells s t read_only = record { source = s; target = t; read_only = read_only }

mode-read :
    (n : ℕ) (read_only : Bool)
    → read_mode n (trim_space (to_lower (trim_space (mode_of read_only)))) ≡ value read_only
unfolding read_mode trim_space lower text_eq
mode-read n true = refl
mode-read n false = refl

pub mode_plain : (read_only : Bool) → Lacks 124 (mode_of read_only) × Lacks 10 (mode_of read_only)
mode_plain true = ((refl, (refl, tt)), (refl, (refl, tt)))
mode_plain false = ((refl, (refl, tt)), (refl, (refl, tt)))

mode-kept :
    (s t : Text) (read_only : Bool)
    → is_absolute s ≡ true
    → trim_space (s ++ bar ++ t ++ bar ++ mode_of read_only)
      ≡ s ++ bar ++ t ++ bar ++ mode_of read_only
unfolding is_space
mode-kept s t true h = line-kept s t b'r' b'o' h refl
mode-kept s t false h = line-kept s t b'r' b'w' h refl

pub line_filled : (m : ProjectMount) → is_absolute m.source ≡ true → is_blank (mount_line m) ≡ false
unfolding mount_line text_eq has_prefix
line_filled m h =
    ap (λ u. text_eq u (codes "")) (mode-kept m.source m.target m.read_only h) ∙ go m.source h
  where
    go :
        (s : Text)
        → is_absolute s ≡ true
        → text_eq (s ++ bar ++ m.target ++ bar ++ mode_of m.read_only) (codes "") ≡ false
    go [] e = absurd cc
    go (c ∷ s) e = refl

-- One line of the text is read as its mount.
pub line-read :
    (n : ℕ) (seen : List ProjectMount) (m : ProjectMount)
    → IsMount m
    → exists (has_target m.target) seen ≡ false
    → read_mount_parts n seen (split_delimited_line (trim_space (mount_line m)) 124)
      ≡ value (seen ++ m ∷ [])
unfolding mount_line add_mount
line-read n seen m h fresh =
    ap (λ u. read_mount_parts n seen (split_delimited_line u 124))
      (mode-kept m.source m.target m.read_only h.0)
    ∙ ap (read_mount_parts n seen) (
        cells-trimmed m.source m.target (mode_of m.read_only) h.5.0 h.6.0
          (mode_plain m.read_only).0)
    ∙ added
  where
    added :
        read_mount_parts n seen
          (trim_space m.source ∷ trim_space m.target ∷ trim_space (mode_of m.read_only) ∷ [])
        ≡ value (seen ++ m ∷ [])
    added =
        ap₂ (λ s t. add_mount n seen s t (trim_space (to_lower (trim_space (mode_of m.read_only)))))
          (ap trim_space h.3 ∙ h.3) (ap trim_space h.4 ∙ h.4)
        ∙ rw (h.0, h.1, h.2, fresh, mode-read n m.read_only) refl
