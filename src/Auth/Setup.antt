-- ===== src/Auth/Setup.antt =====
-- The first administrator (`CreateInitialUser`, internal/auth/service.go).
use caddytower.Prelude.{ℕ, ◌<◌, ◌≡◌, ◌==◌, ◌∙◌, ap, false, length, arith}
use caddytower.Prelude.Texts.{Text}
use caddytower.Prelude.Effects.{Ends, done, failed, bind-Ends, Ends-mono}
use caddytower.Store.Auth.{AuthDb, user_count}
use caddytower.Auth.{AuthState, Library, bootstrap_required}
use caddytower.Auth.Rules.{statement-Ends, SameTables, stored-Ends, Unchanged, Unchanged-db}
use caddytower.Auth.Operations.{create_initial_user}

user_count-Ends :
    (d : AuthDb)
    → Ends (λ n t. (n ≡ length d.users) × SameTables d t) (λ _ t. SameTables d t) (user_count d)
unfolding user_count
user_count-Ends d = bind-Ends (statement-Ends d) λ _ t same. done (ap length same.0, same)

bootstrap_required-Ends :
    (s : AuthState)
    → Ends
        (λ b t. (b ≡ (length s.db.users == 0)) × Unchanged s t)
        (λ _ t. Unchanged s t)
        (bootstrap_required s)
unfolding bootstrap_required
bootstrap_required-Ends s =
    bind-Ends {R = λ n t. (n ≡ length s.db.users) × Unchanged s t}
      (stored-Ends s (user_count-Ends s.db) (λ n d h. (h.0, Unchanged-db d h.1))
        (λ _ d h. Unchanged-db d h))
      λ n t h. done (ap (λ (k : ℕ). k == 0) h.0, h.1)

-- Once there is a user, `CreateInitialUser` never succeeds, whatever its input is and whatever the
-- database does, and it leaves the accounts and the sessions as they are.
pub create_initial_user-once :
    (lib : Library) (email password confirm totp code ip agent : Text) (s : AuthState)
    → 0 < length s.db.users
    → Ends
        (λ _ _. ⊥)
        (λ _ t. (t.db.users ≡ s.db.users) × (t.db.sessions ≡ s.db.sessions))
        (create_initial_user lib email password confirm totp code ip agent s)
unfolding create_initial_user
create_initial_user-once lib email password confirm totp code ip agent s some_user =
    bind-Ends (Ends-mono (bootstrap_required-Ends s) (λ _ _ h. h) (λ _ _ h. (h.users, h.sessions)))
      λ b t h. let no : b ≡ false = h.0 ∙ ground arith in rw no (failed (h.1.users, h.1.sessions))
