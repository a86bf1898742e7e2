-- ===== src/Projects/Inputs/Shown.antt =====
-- The text of the mounts and back (`mountsText`, `parseMountsText`, internal/projects/service.go).
use caddytower.Prelude.{
  ℕ, suc, ◌≡◌, refl, sym, ap, ◌∙◌, false, List, [], ◌∷◌, ◌++◌, map, exists, All, All-append, ◌==◌,
  arith,
}
use caddytower.Prelude.Results.{value}
use caddytower.Prelude.Texts.{Text, split, trim_space}
use caddytower.Prelude.Trim.{Lacks, split-join}
use caddytower.Projects.{ProjectMount}
use caddytower.Projects.Inputs.{
  has_target, read_mounts, parse_mounts_text, mode_of, mount_line, mounts_text,
}
use caddytower.Projects.Inputs.Accepted.{IsMount, OneEach, Mounted, parse_mounts_text-Mounted}
use caddytower.Projects.Inputs.Mounts.{bar, mode_plain, line_filled, line-read}

-- A mount after others in a list without repeated targets.
fresh_in :
    (seen rest : List ProjectMount) (m : ProjectMount)
    → OneEach (seen ++ m ∷ rest)
    → exists (has_target m.target) seen ≡ false
unfolding exists
fresh_in [] rest m d = refl
fresh_in (k ∷ ks) rest m d =
    let other = at_it ks d.0 in let later = fresh_in ks rest m d.1 in ground arith
  where
    at_it :
        (js : List ProjectMount)
        → All (λ j. has_target j.target k ≡ false) (js ++ m ∷ rest)
        → has_target m.target k ≡ false
    at_it [] h = h.0
    at_it (j ∷ js) h = at_it js h.1

moved :
    (seen rest : List ProjectMount) (m : ProjectMount) → seen ++ m ∷ [] ++ rest ≡ seen ++ m ∷ rest
moved [] rest m = refl
moved (k ∷ ks) rest m = ap (λ t. k ∷ t) (moved ks rest m)

lines-read :
    (ms : List ProjectMount) (n : ℕ) (seen : List ProjectMount)
    → All IsMount ms
    → OneEach (seen ++ ms)
    → read_mounts n seen (map mount_line ms) ≡ value (seen ++ ms)
unfolding read_mounts
lines-read [] n seen h d = ap value (sym (ended seen))
  where
    ended : (xs : List ProjectMount) → xs ++ [] ≡ xs
    ended [] = refl
    ended (x ∷ xs) = ap (λ t. x ∷ t) (ended xs)
lines-read (m ∷ ms) n seen h d =
    let first = line-read n seen m h.0 (fresh_in seen ms m d) in
    let next : OneEach (seen ++ m ∷ [] ++ ms) = rw (moved seen ms m) d in
    rw (line_filled m h.0.0, first)
      (lines-read ms (suc n) (seen ++ m ∷ []) h.1 next ∙ ap value (moved seen ms m))

line_on_one : (m : ProjectMount) → IsMount m → Lacks 10 (mount_line m)
unfolding mount_line
line_on_one m h =
    let Q = λ (c : ℕ). 10 == c ≡ false in
    let between : All Q bar = (refl, (refl, (refl, tt))) in
    All-append Q _ (mode_of m.read_only)
      (All-append Q _ bar (All-append Q _ m.target (All-append Q m.source bar h.5.1 between) h.6.1)
        between)
      (mode_plain m.read_only).1

lines_on_one : (ms : List ProjectMount) → All IsMount ms → All (Lacks 10) (map mount_line ms)
lines_on_one [] h = tt
lines_on_one (m ∷ ms) h = (line_on_one m h.0, lines_on_one ms h.1)

shown_again : (ms : List ProjectMount) → Mounted ms → parse_mounts_text (mounts_text ms) ≡ value ms
unfolding parse_mounts_text mounts_text read_mounts split trim_space
shown_again [] g = refl
shown_again (m ∷ ms) g =
    ap (read_mounts 1 [])
      (split-join 10 (mount_line m) (map mount_line ms) (lines_on_one (m ∷ ms) g.0))
    ∙ lines-read (m ∷ ms) 1 [] g.0 g.1

-- For every text of mounts that is accepted, the text that `mountsText` prints for the list of its
-- mounts is accepted too, and read as the same list in the same order.
pub parse_mounts_text-mounts_text :
    (raw : Text) (ms : List ProjectMount)
    → parse_mounts_text raw ≡ value ms
    → parse_mounts_text (mounts_text ms) ≡ value ms
parse_mounts_text-mounts_text raw ms h = shown_again ms (parse_mounts_text-Mounted raw ms h)
