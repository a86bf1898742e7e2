-- ===== src/Store/Domains/Kept.antt =====
-- The statements on domains keep the table sound (internal/store/project_page.go).
use caddytower.Prelude.{
  ℕ, ◌≡◌, not, ◌||◌, some, List, [], ◌∷◌, exists, All, if_holds, if◌then◌else◌, arith,
}
use caddytower.Prelude.Effects.{
  Outcome, ok, fail, Ends, done, failed, bind-Ends, then-Ends, Ends-mono, return, ◌>>◌,
}
use caddytower.Prelude.Texts.{Text}
use caddytower.Store.Auth.{StoreError}
use caddytower.Store.Domains.{
  DomainRecord, DomainTable, Domains, is_domain, clear_primary, has_hostname, row_for,
  insert_domain, transaction, create_project_domain, delete_project_domain,
  mark_project_domain_verified,
}
use caddytower.Store.Domains.Primary.{
  Sound, Admits, update-OnePrimary, keep-OnePrimary, append-OnePrimary, execute-Same,
  executed-Sound, get-Sound, prepared-Admits,
}

-- On success and on failure, the table is sound.
abbrev pub Keeps : {A : Type 0} → Outcome DomainTable StoreError A → Type 0
Keeps = Ends (λ _ t. Sound t) (λ _ t. Sound t)

insert-Sound :
    (r : DomainRecord) (d : DomainTable)
    → Sound d
    → All (Admits r) d.rows
    → Ends (λ _ t. Sound t) (λ _ _. Unit {0}) (insert_domain r d)
unfolding insert_domain
insert-Sound r d h a =
    then-Ends {R = λ _ t. t.rows ≡ d.rows} _ (Ends-mono (execute-Same d) (λ _ t e. e) (λ _ _ _. tt))
      (λ _ t e.
        if_holds (Ends {A = ℕ} (λ _ u. Sound u) (λ _ _. Unit {0}))
          (not (t.has_project r.project_id) || exists (has_hostname r.hostname) t.rows)
          (λ _. failed tt)
          (λ free. done (append-OnePrimary t.rows (row_for r t) (ground arith) (rw e a) (rw e h))))

transaction-Keeps :
    {A : Type 0} (body : Domains A) (d : DomainTable)
    → Sound d
    → Ends (λ _ t. Sound t) (λ _ _. Unit {0}) (body d)
    → Keeps (transaction body d)
unfolding transaction
transaction-Keeps {A} body d h b = rolled (
    bind-Ends b λ x t k.
      Ends-mono (then-Ends (λ (u : DomainTable). ok x u) (executed-Sound t k) (λ _ u s. done s))
        (λ _ _ s. s) (λ _ _ _. tt))
  where
    rolled :
        {o : Outcome DomainTable StoreError A}
        → Ends (λ _ t. Sound t) (λ _ _. Unit {0}) o
        → Ends {E = StoreError} {A = A}
            (λ _ t. Sound t)
            (λ _ t. Sound t)
            (elim o [
              | ok x t ↦ ok x t
              | fail e t ↦ fail e (record t { rows = d.rows; next_id = d.next_id })
            ])
    rolled (done k) = done k
    rolled (failed k) = failed h

create-Keeps : (r : DomainRecord) (d : DomainTable) → Sound d → Keeps (create_project_domain r d)
unfolding create_project_domain
create-Keeps r d h = then-Ends _ (executed-Sound d h) λ _ t k.
    bind-Ends
      (transaction-Keeps
        ((if r.is_primary then clear_primary r.project_id else return tt) >> insert_domain r) t k
        (then-Ends (insert_domain r) (prepared-Admits r t k) (λ _ u p. insert-Sound r u p.0 p.1)))
      λ id v s. get-Sound r.project_id id v s

delete-Keeps :
    (project : Text) (id : ℕ) (d : DomainTable)
    → Sound d
    → Keeps (delete_project_domain project id d)
unfolding delete_project_domain
delete-Keeps project id d h = then-Ends _ (executed-Sound d h) λ _ t k.
    if_holds Keeps (exists (is_domain project id) t.rows)
      (λ _. done (keep-OnePrimary (λ r. not (is_domain project id r)) t.rows k)) (λ _. failed k)

verify-Keeps :
    (project : Text) (id at : ℕ) (d : DomainTable)
    → Sound d
    → Keeps (mark_project_domain_verified project id at d)
unfolding mark_project_domain_verified
verify-Keeps project id at d h = then-Ends _ (executed-Sound d h) λ _ t k.
    if_holds Keeps (exists (is_domain project id) t.rows)
      (λ _. done (
        update-OnePrimary (is_domain project id) (λ r. record r { dns_verified_at = some at })
          (λ r q a. (a, a, a)) t.rows k))
      (λ _. failed k)

-- The operations that change the table.
pub data Change : Type 0 where
  create : DomainRecord → Change
  delete : Text → ℕ → Change
  verify : Text → ℕ → ℕ → Change

abbrev final : {A : Type 0} → Outcome DomainTable StoreError A → DomainTable
final (ok x t) = t
final (fail e t) = t

unfoldable pub change : Change → DomainTable → DomainTable
unfolding create_project_domain delete_project_domain mark_project_domain_verified
change (create r) d = final (create_project_domain r d)
change (delete project id) d = final (delete_project_domain project id d)
change (verify project id at) d = final (mark_project_domain_verified project id at d)

unfoldable pub changes : List Change → DomainTable → DomainTable
unfolding change
changes [] d = d
changes (c ∷ cs) d = changes cs (change c d)

final-Sound : {A : Type 0} {o : Outcome DomainTable StoreError A} → Keeps o → Sound (final o)
final-Sound (done h) = h
final-Sound (failed h) = h

change-Sound : (c : Change) (d : DomainTable) → Sound d → Sound (change c d)
unfolding change
change-Sound (create r) d h = final-Sound (create-Keeps r d h)
change-Sound (delete project id) d h = final-Sound (delete-Keeps project id d h)
change-Sound (verify project id at) d h = final-Sound (verify-Keeps project id at d h)

-- Whatever sequence of domains is created, deleted and marked as verified, and whichever statement of
-- them the database refuses, a table that begins with at most one primary domain for each project and
-- no host name twice stays so.
pub changes-Sound : (cs : List Change) (d : DomainTable) → Sound d → Sound (changes cs d)
unfolding changes
changes-Sound [] d h = h
changes-Sound (c ∷ cs) d h = changes-Sound cs (change c d) (change-Sound c d h)
