-- ===== src/Auth/Attempts.antt =====
-- The limit of login attempts for each client address (`allowIP`, internal/auth/service.go).
use caddytower.Prelude.{
  ℕ, ◌-◌, ◌≤◌, ◌≡◌, refl, ◌∙◌, Bool, true, false, List, [], ◌∷◌, ◌++◌, length, length-append,
  length-keep-le, keep, keep-append, arith, if◌then◌else◌, leb, ltb, Bool-cases, inl, inr,
}
use caddytower.Prelude.Texts.{Text, text_eq, text_eq_refl, codes}
use caddytower.Prelude.Effects.{ok, fail, final}
use caddytower.Auth.{AuthState, allow_ip, recent}

-- A stored list of attempts never grows beyond the limit, whatever the clock reads, for the address
-- that asks and for every other one.
pub allow_ip_bounded :
    (ip other : Text) (s : AuthState)
    → length (s.ip_attempts ip) ≤ s.ip_limit
    → length (s.ip_attempts other) ≤ s.ip_limit
    → length ((final (allow_ip ip s)).ip_attempts other) ≤ s.ip_limit
unfolding allow_ip
allow_ip_bounded ip other s g h =
    let kept = recent s.ip_window s.clock (s.ip_attempts ip) in
    ground (
      arith,
      length-keep-le {0} (λ (a : ℕ). leb (s.clock - a) s.ip_window) (s.ip_attempts ip),
      length-append {0} kept (s.clock ∷ []),
    )

abbrev pub at_time : ℕ → AuthState → AuthState
at_time t s = record s { db = record s.db { clock = t } }

-- The answers to the attempts of one address at the times of a list.
unfoldable pub answers : Text → AuthState → List ℕ → List Bool
answers ip s [] = []
answers ip s (t ∷ ts) = elim (allow_ip ip (at_time t s)) [
  | ok a s' ↦ a ∷ answers ip s' ts
  | fail _ s' ↦ false ∷ answers ip s' ts
]

-- The rule that the limiter stands for: the whole history of allowed attempts is kept, and an
-- attempt is allowed if fewer than `limit` of them lie in the window that ends now.
unfoldable pub answers_by_history : ℕ → ℕ → List ℕ → List ℕ → List Bool
answers_by_history limit window log [] = []
answers_by_history limit window log (t ∷ ts) =
    let granted = ltb (length (recent window t log)) limit in
    granted ∷ answers_by_history limit window (if granted then log ++ t ∷ [] else log) ts

-- Times do not fall.
abbrev pub Ascending : ℕ → List ℕ → Type 0
Ascending t0 [] = Unit
Ascending t0 (t ∷ ts) = (t0 ≤ t) × Ascending t ts

recent-recent : (w t u : ℕ) (xs : List ℕ) → t ≤ u → recent w u (recent w t xs) ≡ recent w u xs
unfolding keep
recent-recent w t u [] h = refl
recent-recent w t u (x ∷ xs) h = ground (arith, recent-recent w t u xs h)

-- The stored list and the history show the same attempts, now and later.
abbrev Agree : ℕ → ℕ → List ℕ → List ℕ → Type 0
Agree w t0 xs log = (t : ℕ) → t0 ≤ t → recent w t xs ≡ recent w t log

Agree-recent :
    (w t0 t : ℕ) (xs log : List ℕ) → t0 ≤ t → Agree w t0 xs log → Agree w t (recent w t xs) log
Agree-recent w t0 t xs log h agree u k = recent-recent w t u xs k ∙ agree u (omega arith)

Agree-append :
    (w t : ℕ) (xs log : List ℕ) (x : ℕ)
    → Agree w t xs log
    → Agree w t (xs ++ x ∷ []) (log ++ x ∷ [])
Agree-append w t xs log x agree u k = rw (
  keep-append (λ a. leb (u - a) w) xs (x ∷ []),
  keep-append (λ a. leb (u - a) w) log (x ∷ []),
  agree u k,
)

-- One attempt: its answer, and the state after it.
allow_ip_step :
    (ip : Text) (s : AuthState)
    → text_eq ip (codes "") ≡ false
    → let kept = recent s.ip_window s.clock (s.ip_attempts ip) in
      (a : Bool) × (s' : AuthState) × (allow_ip ip s ≡ ok a s')
      × (a ≡ ltb (length kept) s.ip_limit)
      × (s'.ip_attempts ip ≡ (if a then kept ++ s.clock ∷ [] else kept))
      × (s'.ip_limit ≡ s.ip_limit)
      × (s'.ip_window ≡ s.ip_window)
unfolding allow_ip
allow_ip_step ip s h =
    elim (Bool-cases (leb s.ip_limit (length (recent s.ip_window s.clock (s.ip_attempts ip))))) [
      | inl full ↦ rw (h, full) (false, _, refl, ground arith, rw text_eq_refl, refl, refl)
      | inr room ↦ rw (h, room) (true, _, refl, ground arith, rw text_eq_refl, refl, refl)
    ]

Agree-if :
    (w t : ℕ) (xs log : List ℕ) (b : Bool)
    → Agree w t xs log
    → Agree w t (if b then xs ++ t ∷ [] else xs) (if b then log ++ t ∷ [] else log)
Agree-if w t xs log true agree = Agree-append w t xs log t agree
Agree-if w t xs log false agree = agree

cons_agree :
    (a b : Bool) {l l' w w' : ℕ} (t : ℕ) (log ts : List ℕ) (rest : List Bool)
    → a ≡ b
    → l' ≡ l
    → w' ≡ w
    → rest ≡ answers_by_history l' w' (if a then log ++ t ∷ [] else log) ts
    → a ∷ rest ≡ b ∷ answers_by_history l w (if b then log ++ t ∷ [] else log) ts
cons_agree a b t log ts rest e lim win h = cc

answers-Agree :
    (ip : Text) (s : AuthState) (t0 : ℕ) (log ts : List ℕ)
    → text_eq ip (codes "") ≡ false
    → Agree s.ip_window t0 (s.ip_attempts ip) log
    → Ascending t0 ts
    → answers ip s ts ≡ answers_by_history s.ip_limit s.ip_window log ts
unfolding answers answers_by_history
answers-Agree ip s t0 log [] h agree asc = refl
answers-Agree ip s t0 log (t ∷ ts) h agree asc =
    let (a, s', e, ea, el, lim, win) = allow_ip_step ip (at_time t s) h in
    let kept : List ℕ = recent s.ip_window t (s.ip_attempts ip) in
    let ea' : a ≡ ltb (length (recent s.ip_window t log)) s.ip_limit = rw (← agree t asc.0) ea in
    let agree' : Agree s'.ip_window t (s'.ip_attempts ip) (if a then log ++ t ∷ [] else log) =
      rw (el, win)
        (Agree-if s.ip_window t kept log a
          (Agree-recent s.ip_window t0 t (s.ip_attempts ip) log asc.0 agree)) in
    let ih = answers-Agree ip s' t (if a then log ++ t ∷ [] else log) ts h agree' asc.1 in
    rw (e, answers) (cons_agree a _ t log ts (answers ip s' ts) ea' lim win ih)

-- For a client with an address and a clock that does not fall, the answers of `allowIP`, which
-- forgets old attempts, are those of the rule that keeps the whole history: an attempt is allowed
-- exactly if fewer than `ipLimit` allowed attempts lie in the `ipWindow` that ends with it.
pub answers-history :
    (ip : Text) (s : AuthState) (t0 : ℕ) (ts : List ℕ)
    → text_eq ip (codes "") ≡ false
    → Ascending t0 ts
    → answers ip s ts ≡ answers_by_history s.ip_limit s.ip_window (s.ip_attempts ip) ts
answers-history ip s t0 ts h asc = answers-Agree ip s t0 (s.ip_attempts ip) ts h (λ t k. refl) asc
