-- ===== src/Prelude/Effects.antt =====
-- Code with a state and an `error` result. A failure keeps the state that it has reached, as
-- side effects in Go stay when a later call fails.
use mathlib.Core.Path.{◌≡◌}

pub data Outcome (S E A : Type 0) : Type 0 where
  ok : A → S → Outcome S E A
  fail : E → S → Outcome S E A

abbrev pub M : Type 0 → Type 0 → Type 0 → Type 0
M S E A = S → Outcome S E A

infixl 5 ◌>>=◌ ◌>>◌
abbrev pub ◌>>=◌ : {S E A B : Type 0} → M S E A → (A → M S E B) → M S E B
◌>>=◌ m f s = elim (m s) [ ok a t ↦ f a t | fail e t ↦ fail e t ]

abbrev pub ◌>>◌ : {S E B : Type 0} → M S E (Unit {0}) → M S E B → M S E B
◌>>◌ m k s = elim (m s) [ ok _ t ↦ k t | fail e t ↦ fail e t ]

abbrev pub return : {S E A : Type 0} → A → M S E A
return a s = ok a s

abbrev pub throw : {S E A : Type 0} → E → M S E A
throw e s = fail e s

abbrev pub get : {S E : Type 0} → M S E S
get s = ok s s

-- The state in which a call leaves the program, on success and on failure.
abbrev pub final : {S E A : Type 0} → Outcome S E A → S
final (ok a s) = s
final (fail e s) = s

-- What holds of the result and the state after a call: `P` on success, `Q` on failure.
pub data Ends {S E A : Type 0} (P : A → S → Type 0) (Q : E → S → Type 0)
    : Outcome S E A → Type 0 where
  done : {a : A} {s : S} → P a s → Ends P Q (ok a s)
  failed : {e : E} {s : S} → Q e s → Ends P Q (fail e s)

module _ {S E A : Type 0} {P : A → S → Type 0} {Q : E → S → Type 0} where
  pub done-holds : {a : A} {s : S} → Ends P Q (ok a s) → P a s
  done-holds (done h) = h

  pub failed-holds : {e : E} {s : S} → Ends P Q (fail e s) → Q e s
  failed-holds (failed h) = h

  -- What holds of a given success or failure.
  pub Ends-ok : {o : Outcome S E A} {a : A} {s : S} → Ends P Q o → o ≡ ok a s → P a s
  Ends-ok h e = done-holds (rw e at h)

  pub Ends-fail : {o : Outcome S E A} {x : E} {s : S} → Ends P Q o → o ≡ fail x s → Q x s
  Ends-fail h e = failed-holds (rw e at h)

  -- A weaker postcondition.
  pub Ends-mono :
      {P' : A → S → Type 0} {Q' : E → S → Type 0} {o : Outcome S E A}
      → Ends P Q o
      → ((a : A) (t : S) → P a t → P' a t)
      → ((e : E) (t : S) → Q e t → Q' e t)
      → Ends P' Q' o
  Ends-mono (done {a} {s} h) f g = done (f a s h)
  Ends-mono (failed {e} {s} h) f g = failed (g e s h)

-- The rule for a chain of two calls.
pub bind-Ends :
    {S E A B : Type 0} {R : A → S → Type 0} {Q : E → S → Type 0} {P : B → S → Type 0}
    {f : A → M S E B} {o : Outcome S E A}
    → Ends R Q o
    → ((a : A) (t : S) → R a t → Ends P Q (f a t))
    → Ends P Q (elim o [ ok a t ↦ f a t | fail e t ↦ fail e t ])
bind-Ends (done {a} {s} h) k = k a s h
bind-Ends (failed h) k = failed h

-- A fact that does not depend on the outcome.
pub Ends-const : {S E A K : Type 0} (o : Outcome S E A) → K → Ends (λ _ _. K) (λ _ _. Unit {0}) o
Ends-const (ok a s) k = done k
Ends-const (fail e s) k = failed tt

-- The same rule for `m >> k`.
pub then-Ends :
    {S E A B : Type 0} {R : A → S → Type 0} {Q : E → S → Type 0} {P : B → S → Type 0} (k : M S E B)
    {o : Outcome S E A}
    → Ends R Q o
    → ((a : A) (t : S) → R a t → Ends P Q (k t))
    → Ends P Q (elim o [ ok _ t ↦ k t | fail e t ↦ fail e t ])
then-Ends k (done {a} {s} h) g = g a s h
then-Ends k (failed h) g = failed h
