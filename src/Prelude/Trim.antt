-- ===== src/Prelude/Trim.antt =====
-- Laws of `strings.TrimSpace` and of `strings.Split` and `strings.Join`.
use Prim.Native.Nat.{ℕ}
use mathlib.Core.Path.{◌≡◌, refl, sym, ap, ◌∙◌}
use mathlib.Core.Logic.{inl, inr}
use mathlib.Core.Bool.{Bool, true, false}
use mathlib.Core.List.{List, [], ◌∷◌, ◌++◌, reverse, reverse-cons, reverse-append, reverse-reverse}
use native.Mathlib.Omega.{arith}
use caddytower.Prelude.Tests.{◌==◌, if◌then◌else◌, if_holds, Bool-cases}
use caddytower.Prelude.Lists.{is_empty, All, All-append}
use caddytower.Prelude.Texts.{
  Text, is_space, trim_left, trim_right, trim_space, split, join, cons_head,
}

module _ (p : ℕ → Bool) where
  trim_left_snoc :
      (xs : Text) (c : ℕ)
      → trim_left p (xs ++ c ∷ [])
        ≡ (if is_empty (trim_left p xs) then trim_left p (c ∷ []) else trim_left p xs ++ c ∷ [])
  unfolding trim_left
  trim_left_snoc [] c = refl
  trim_left_snoc (x ∷ xs) c = elim (Bool-cases (p x)) [
    | inl e ↦ rw e (trim_left_snoc xs c)
    | inr e ↦ rw e refl
  ]

  is_empty-reverse : (xs : Text) → is_empty (reverse xs) ≡ is_empty xs
  is_empty-reverse [] = refl
  is_empty-reverse (x ∷ xs) = ap is_empty (reverse-cons x xs) ∙ filled (reverse xs)
    where
      filled : (ys : Text) → is_empty (ys ++ x ∷ []) ≡ false
      filled [] = refl
      filled (y ∷ ys) = refl

  -- The last characters are dropped from the rest first.
  trim_right-cons :
      (c : ℕ) (s : Text)
      → trim_right p (c ∷ s)
        ≡ (if is_empty (trim_right p s) then (if p c then [] else c ∷ []) else c ∷ trim_right p s)
  unfolding trim_right trim_left
  trim_right-cons c s =
      ap (λ t. reverse (trim_left p t)) (reverse-cons c s)
      ∙ ap reverse (trim_left_snoc (reverse s) c)
      ∙ go (trim_left p (reverse s))
    where
      go :
          (t : Text)
          → reverse {A = ℕ} (if is_empty t then trim_left p (c ∷ []) else t ++ c ∷ [])
            ≡ (if is_empty (reverse t) then (if p c then [] else c ∷ []) else c ∷ reverse t)
      go t = elim (Bool-cases (is_empty t)) [
        | inl e ↦
            let same = is_empty-reverse t ∙ e in
            rw (e, same) (if_holds (λ (u : Text). reverse u ≡ u) (p c) (λ _. refl) (λ _. refl))
        | inr e ↦ let same = is_empty-reverse t ∙ e in rw (e, same) (reverse-append t (c ∷ []))
      ]

  -- The first character stays.
  abbrev Starts : Text → Type 0
  Starts [] = Unit
  Starts (c ∷ s) = p c ≡ false

  trim_left-Starts : (s : Text) → Starts (trim_left p s)
  unfolding trim_left
  trim_left-Starts [] = tt
  trim_left-Starts (c ∷ s) = if_holds Starts (p c) (λ _. trim_left-Starts s) (λ e. e)

  Starts-trim_left : (s : Text) → Starts s → trim_left p s ≡ s
  unfolding trim_left
  Starts-trim_left [] h = refl
  Starts-trim_left (c ∷ s) h = rw h refl

  trim_right-Starts : (s : Text) → Starts s → Starts (trim_right p s)
  unfolding trim_right trim_left
  trim_right-Starts [] h = tt
  trim_right-Starts (c ∷ s) h =
      rw (trim_right-cons c s) (if_holds Starts (is_empty (trim_right p s)) (λ _. rw h h) (λ _. h))

  trim_left_idem : (s : Text) → trim_left p (trim_left p s) ≡ trim_left p s
  trim_left_idem s = Starts-trim_left (trim_left p s) (trim_left-Starts s)

  trim_right_idem : (s : Text) → trim_right p (trim_right p s) ≡ trim_right p s
  unfolding trim_right
  trim_right_idem s =
      ap (λ t. reverse (trim_left p t)) (reverse-reverse (trim_left p (reverse s)))
      ∙ ap reverse (trim_left_idem (reverse s))

  trim_right_snoc : (s : Text) (c : ℕ) → p c ≡ true → trim_right p (s ++ c ∷ []) ≡ trim_right p s
  unfolding trim_right trim_left
  trim_right_snoc s c e = ap (λ t. reverse (trim_left p t)) (reverse-append s (c ∷ [])) ∙ rw e refl

-- What is trimmed is trimmed already.
pub trim_space_idem : (s : Text) → trim_space (trim_space s) ≡ trim_space s
unfolding trim_space
trim_space_idem s =
    ap (trim_right is_space) (
      Starts-trim_left is_space (trim_space s)
        (trim_right-Starts is_space (trim_left is_space s) (trim_left-Starts is_space s)))
    ∙ trim_right_idem is_space (trim_left is_space s)

cleared : (t : Text) → is_empty t ≡ true → t ≡ []
cleared [] h = refl
cleared (x ∷ xs) h = absurd cc

pub trim_space-snoc :
    (s : Text) (c : ℕ) → is_space c ≡ true → trim_space (s ++ c ∷ []) ≡ trim_space s
unfolding trim_space trim_left
trim_space-snoc s c e =
    let gone : trim_left is_space (c ∷ []) ≡ [] = rw e refl in
    ap (trim_right is_space) (trim_left_snoc is_space s c)
    ∙ elim (Bool-cases (is_empty (trim_left is_space s))) [
      | inl k ↦ rw k (ap (trim_right is_space) (gone ∙ sym (cleared (trim_left is_space s) k)))
      | inr k ↦ rw k (trim_right_snoc is_space (trim_left is_space s) c e)
    ]

pub trim_space-cons : (c : ℕ) (s : Text) → is_space c ≡ true → trim_space (c ∷ s) ≡ trim_space s
unfolding trim_space trim_left
trim_space-cons c s e = rw e refl

-- Text without the character.
abbrev pub Lacks : ℕ → Text → Type 0
Lacks sep = All (λ c. sep == c ≡ false)

pub split-Lacks : (sep : ℕ) (s : Text) → All (Lacks sep) (split sep s)
unfolding split
split-Lacks sep [] = (tt, tt)
split-Lacks sep (c ∷ s) =
    if_holds (All (Lacks sep)) (sep == c) (λ _. (tt, split-Lacks sep s))
      (λ e. cons_head-Lacks (split sep s) e (split-Lacks sep s))
  where
    cons_head-Lacks :
        (ws : List Text) → sep == c ≡ false → All (Lacks sep) ws → All (Lacks sep) (cons_head c ws)
    cons_head-Lacks [] e h = ((e, tt), tt)
    cons_head-Lacks (w ∷ ws) e h = ((e, h.0), h.1)

-- A part without the separator is read up to the separator.
pub split-Part :
    (sep : ℕ) (w s : Text) → Lacks sep w → split sep ((w ++ sep ∷ []) ++ s) ≡ w ∷ split sep s
unfolding split
split-Part sep [] s h = let same : sep == sep ≡ true = ground arith in rw same refl
split-Part sep (c ∷ w) s h = rw (h.0, split-Part sep w s h.1) refl

pub split-Last : (sep : ℕ) (w : Text) → Lacks sep w → split sep w ≡ w ∷ []
unfolding split
split-Last sep [] h = refl
split-Last sep (c ∷ w) h = rw (h.0, split-Last sep w h.1) refl

join-cons :
    (sep w v : Text) (ws : List Text) → join sep (w ∷ v ∷ ws) ≡ w ++ sep ++ join sep (v ∷ ws)
unfolding join
join-cons sep w v [] = refl
join-cons sep w v (u ∷ us) = refl

-- Parts that lack the separator are split where they are joined, if there is one.
pub split-join :
    (sep : ℕ) (w : Text) (ws : List Text)
    → All (Lacks sep) (w ∷ ws)
    → split sep (join (sep ∷ []) (w ∷ ws)) ≡ w ∷ ws
unfolding join
split-join sep w [] h = split-Last sep w h.0
split-join sep w (v ∷ ws) h =
    ap (split sep) (join-cons (sep ∷ []) w v ws)
    ∙ split-Part sep w (join (sep ∷ []) (v ∷ ws)) h.0
    ∙ ap (λ (us : List Text). w ∷ us) (split-join sep v ws h.1)

module _ (Q : ℕ → Type 0) (p : ℕ → Bool) where
  All-trim_left : (s : Text) → All Q s → All Q (trim_left p s)
  unfolding trim_left
  All-trim_left [] h = tt
  All-trim_left (c ∷ s) h = if_holds (All Q) (p c) (λ _. All-trim_left s h.1) (λ _. h)

  All-reverse : (s : Text) → All Q s → All Q (reverse s)
  All-reverse [] h = tt
  All-reverse (c ∷ s) h =
      rw (reverse-cons c s) (All-append Q (reverse s) (c ∷ []) (All-reverse s h.1) (h.0, tt))

  All-trim_right : (s : Text) → All Q s → All Q (trim_right p s)
  unfolding trim_right
  All-trim_right s h =
      All-reverse (trim_left p (reverse s)) (All-trim_left (reverse s) (All-reverse s h))

-- The characters of a text are those of what it is trimmed from.
pub All-trim_space : (Q : ℕ → Type 0) (s : Text) → All Q s → All Q (trim_space s)
unfolding trim_space
All-trim_space Q s h =
    All-trim_right Q is_space (trim_left is_space s) (All-trim_left Q is_space s h)

-- The characters of the parts are those of the text.
pub All-split : (Q : ℕ → Type 0) (sep : ℕ) (s : Text) → All Q s → All (All Q) (split sep s)
unfolding split
All-split Q sep [] h = (tt, tt)
All-split Q sep (c ∷ s) h =
    if_holds (All (All Q)) (sep == c) (λ _. (tt, All-split Q sep s h.1))
      (λ _. consed (split sep s) (All-split Q sep s h.1))
  where
    consed : (ws : List Text) → All (All Q) ws → All (All Q) (cons_head c ws)
    consed [] k = ((h.0, tt), tt)
    consed (w ∷ ws) k = ((h.0, k.0), k.1)

-- A text that begins and ends with characters that are no blanks.
pub trim_space-kept :
    (c d : ℕ) (s : Text)
    → is_space c ≡ false
    → is_space d ≡ false
    → trim_space (c ∷ s ++ d ∷ []) ≡ c ∷ s ++ d ∷ []
unfolding trim_space trim_right trim_left
trim_space-kept c d s e f = rw e (
    ap (λ t. reverse (trim_left is_space t)) (reverse-append (c ∷ s) (d ∷ []))
    ∙ rw f (ap reverse (sym (reverse-append (c ∷ s) (d ∷ []))) ∙ reverse-reverse (c ∷ s ++ d ∷ [])))
