-- ===== src/Prelude/Results.antt =====
-- Go functions without a state that return a value or an error.
use mathlib.Core.Path.{◌≡◌}

pub data Result (E A : Type 0) : Type 0 where
  value : A → Result E A
  error : E → Result E A

infixl 5 ◌>>=◌ ◌>>◌
abbrev pub ◌>>=◌ : {E A B : Type 0} → Result E A → (A → Result E B) → Result E B
r >>= k = elim r [ value a ↦ k a | error e ↦ error e ]

abbrev pub ◌>>◌ : {E B : Type 0} → Result E (Unit {0}) → Result E B → Result E B
r >> k = elim r [ value _ ↦ k | error e ↦ error e ]

abbrev pub return : {E A : Type 0} → A → Result E A
return a = value a

-- What holds of the value, where there is one.
pub data Holds {E A : Type 0} (P : A → Type 0) : Result E A → Type 0 where
  held : {a : A} → P a → Holds P (value a)
  erred : {e : E} → Holds P (error e)

pub bind-Holds :
    {E A B : Type 0} {P : A → Type 0} {Q : B → Type 0} {k : A → Result E B} {r : Result E A}
    → Holds P r
    → ((a : A) → P a → Holds Q (k a))
    → Holds Q (elim r [ value a ↦ k a | error e ↦ error e ])
bind-Holds (held {a} h) f = f a h
bind-Holds erred f = erred

pub then-Holds :
    {E B : Type 0} {P : Type 0} {Q : B → Type 0} {k : Result E B} {r : Result E (Unit {0})}
    → Holds (λ _. P) r
    → (P → Holds Q k)
    → Holds Q (elim r [ value _ ↦ k | error e ↦ error e ])
then-Holds (held h) f = f h
then-Holds erred f = erred

held-holds : {E A : Type 0} {P : A → Type 0} {a : A} → Holds {E = E} P (value a) → P a
held-holds (held h) = h

pub Holds-value :
    {E A : Type 0} {P : A → Type 0} {r : Result E A} {a : A} → Holds P r → r ≡ value a → P a
Holds-value h e = held-holds (rw e at h)

pub Holds-mono :
    {E A : Type 0} {P Q : A → Type 0} {r : Result E A}
    → Holds P r
    → ((a : A) → P a → Q a)
    → Holds Q r
Holds-mono (held {a} h) f = held (f a h)
Holds-mono erred f = erred
