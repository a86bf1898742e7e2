-- ===== src/Releases/Order.antt =====
-- The order of releases (`compareReleaseVersions`, internal/server/controller_update.go).
use mathlib.Core.Path.{subst}
use caddytower.Prelude.{
  ℕ, zero, suc, ◌+◌, ◌≤◌, ◌<◌, ◌≡◌, refl, sym, ◌∙◌, ap, ◌⊎◌, inl, inr, true, false, ◌||◌, List, [],
  ◌∷◌, is_empty, length, arith, Bool-cases, ltb,
}
use caddytower.Prelude.Int.{ℤ, pos, negsuc, ltb_ℤ}
use caddytower.Prelude.Texts.{Text}
use caddytower.Releases.{
  Comparison, older, same_release, newer, release_part_at, compare_parts, max_parts, parts_of,
  compare_normalized, compare_release_versions, normalize_release_version,
}

-- Two versions agree on the parts before an index, and the first has the smaller part there; a part
-- that a version does not have is 0.
abbrev pub Before : List Text → List Text → Type 0
Before a b =
    (i : ℕ) × ((j : ℕ) → j < i → release_part_at a j ≡ release_part_at b j)
    × (ltb_ℤ (release_part_at a i) (release_part_at b i) ≡ true)

-- What an answer says of the parts of two versions.
abbrev pub Describes : Comparison → List Text → List Text → Type 0
Describes older a b = Before a b
Describes same_release a b = (i : ℕ) → release_part_at a i ≡ release_part_at b i
Describes newer a b = Before b a

ltb_ℤ_antisym : (a b : ℤ) → ltb_ℤ a b ≡ false → ltb_ℤ b a ≡ false → a ≡ b
ltb_ℤ_antisym (pos a) (pos b) h k = ap pos (ground arith)
ltb_ℤ_antisym (pos a) (negsuc b) h k = absurd cc
ltb_ℤ_antisym (negsuc a) (pos b) h k = absurd cc
ltb_ℤ_antisym (negsuc a) (negsuc b) h k = ap negsuc (ground arith)

part_past_end : (ps : List Text) (i : ℕ) → length ps ≤ i → release_part_at ps i ≡ pos 0
unfolding release_part_at
part_past_end [] i h = refl
part_past_end (p ∷ ps) zero h = absurd (omega arith)
part_past_end (p ∷ ps) (suc i) h = part_past_end ps i (omega arith)

-- Both versions agree before the index.
abbrev Agree : ℕ → List Text → List Text → Type 0
Agree i a b = (j : ℕ) → j < i → release_part_at a j ≡ release_part_at b j

Agree-next :
    (i : ℕ) (a b : List Text)
    → Agree i a b
    → release_part_at a i ≡ release_part_at b i
    → Agree (i + 1) a b
Agree-next i a b h e j below = elim (Bool-cases (ltb j i)) [
  | inl k ↦ h j (ground arith)
  | inr k ↦
      let here : i ≡ j = ground arith in
      subst (λ (m : ℕ). release_part_at a m ≡ release_part_at b m) here e
]

Agree-sym : (i : ℕ) (a b : List Text) → Agree i a b → Agree i b a
Agree-sym i a b h j below = sym (h j below)

compare_parts-Describes :
    (n i : ℕ) (a b : List Text)
    → Agree i a b
    → length a ≤ n + i
    → length b ≤ n + i
    → Describes (compare_parts n i a b) a b
unfolding compare_parts
compare_parts-Describes zero i a b h ka kb = λ j. elim (Bool-cases (ltb j i)) [
  | inl e ↦ h j (ground arith)
  | inr e ↦ part_past_end a j (ground arith) ∙ sym (part_past_end b j (ground arith))
]
compare_parts-Describes (suc n) i a b h ka kb =
    elim (Bool-cases (ltb_ℤ (release_part_at a i) (release_part_at b i))) [
      | inl e ↦ rw e (i, h, e)
      | inr e ↦ elim (Bool-cases (ltb_ℤ (release_part_at b i) (release_part_at a i))) [
        | inl e' ↦ rw (e, e') (i, Agree-sym i a b h, e')
        | inr e' ↦
            rw (e, e')
              (compare_parts-Describes n (i + 1) a b
                (Agree-next i a b h
                  (ltb_ℤ_antisym (release_part_at a i) (release_part_at b i) e e'))
                (omega arith) (omega arith))
      ]
    ]

compare_normalized-Describes :
    (a b : Text)
    → (is_empty a || is_empty b) ≡ false
    → Describes (compare_normalized a b) (parts_of a) (parts_of b)
unfolding compare_normalized
compare_normalized-Describes a b h = rw h (
    compare_parts-Describes (max_parts (length (parts_of a)) (length (parts_of b))) 0 (parts_of a)
      (parts_of b) (λ j below. absurd (omega arith)) (ground arith) (ground arith))

-- A text that is no version, once normalised, is the same release as every other one. For two
-- versions the answer is `older` only if the first has the smaller number in the first part in which
-- they differ, `newer` only if the second has, and `same_release` only if they differ in no part, where
-- a missing part is 0.
pub compare_release_versions-Describes :
    (a b : Text)
    → (((is_empty (normalize_release_version a) || is_empty (normalize_release_version b)) ≡ true)
        × (compare_release_versions a b ≡ same_release))
      ⊎ (((is_empty (normalize_release_version a) || is_empty (normalize_release_version b))
            ≡ false)
          × Describes
              (compare_release_versions a b)
              (parts_of (normalize_release_version a))
              (parts_of (normalize_release_version b)))
unfolding compare_release_versions compare_normalized
compare_release_versions-Describes a b =
    let na = normalize_release_version a in
    let nb = normalize_release_version b in
    elim (Bool-cases (is_empty na || is_empty nb)) [
      | inl e ↦ inl (e, rw e refl)
      | inr e ↦ inr (e, compare_normalized-Describes na nb e)
    ]
