-- ===== src/Releases.antt =====
-- internal/server/controller_update.go: the versions of releases and their order.
pub mod Order
mod Tests
use caddytower.Prelude.{
  ℕ, zero, suc, ◌+◌, ltb, ◌==◌, Bool, true, false, not, ◌||◌, Option, none, some, List, [], ◌∷◌,
  ◌++◌, length, exists, is_empty, if◌then◌else◌,
}
use caddytower.Prelude.Int.{ℤ, pos, ltb_ℤ}
use caddytower.Prelude.Texts.{
  Text, codes, text_eq, lower, to_lower, trim_space, trim_prefix, split, join,
}
use caddytower.Prelude.Decimal.{atoi}

-- What stands before the first `+` or `-`.
unfoldable pub before_suffix : Text → Text
before_suffix [] = []
before_suffix (c ∷ s) =
    let rest = before_suffix s in if c == b'+' || c == b'-' then [] else c ∷ rest

abbrev is_none : Option ℤ → Bool
is_none none = true
is_none (some n) = false

-- A part that is empty or no number.
abbrev is_bad_part : Text → Bool
is_bad_part part = is_empty part || is_none (atoi part)

abbrev is_channel : Text → Bool
is_channel t =
    text_eq t (codes "dev")
    || text_eq t (codes "main")
    || text_eq t (codes "latest")
    || text_eq t (codes "unknown")

-- The empty text stands for no version.
unfoldable pub normalize_release_version : Text → Text
unfolding before_suffix trim_space trim_prefix text_eq lower split join exists
normalize_release_version value =
    let t = trim_space value in
    let number = trim_prefix (before_suffix t) (codes "v") in
    if is_empty t || is_channel (to_lower t)
    then []
    else if is_empty number
    then []
    else if exists is_bad_part (split b'.' number)
    then []
    else codes "v" ++ join (codes ".") (split b'.' number)

abbrev value_of : Option ℤ → ℤ
value_of none = pos 0
value_of (some n) = n

unfoldable pub release_part_at : List Text → ℕ → ℤ
unfolding atoi
release_part_at [] i = pos 0
release_part_at (p ∷ ps) zero = value_of (atoi p)
release_part_at (p ∷ ps) (suc i) = release_part_at ps i

pub data Comparison : Type 0 where
  older same_release newer : Comparison

-- The loop over the parts from index `i` on, for `n` more of them.
unfoldable pub compare_parts : ℕ → ℕ → List Text → List Text → Comparison
unfolding release_part_at
compare_parts zero i current latest = same_release
compare_parts (suc n) i current latest =
    let rest = compare_parts n (i + 1) current latest in
    if ltb_ℤ (release_part_at current i) (release_part_at latest i)
    then older
    else if ltb_ℤ (release_part_at latest i) (release_part_at current i)
    then newer
    else rest

abbrev pub max_parts : ℕ → ℕ → ℕ
max_parts a b = if ltb a b then b else a

abbrev pub parts_of : Text → List Text
parts_of version = split b'.' (trim_prefix version (codes "v"))

unfoldable pub compare_normalized : Text → Text → Comparison
unfolding split trim_prefix compare_parts
compare_normalized current latest =
    if is_empty current || is_empty latest
    then same_release
    else compare_parts (max_parts (length (parts_of current)) (length (parts_of latest))) 0
        (parts_of current) (parts_of latest)

unfoldable pub compare_release_versions : Text → Text → Comparison
unfolding normalize_release_version compare_normalized
compare_release_versions current latest =
    compare_normalized (normalize_release_version current) (normalize_release_version latest)
