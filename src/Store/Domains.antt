-- ===== src/Store/Domains.antt =====
-- internal/store/project_page.go: the table `project_domains` and its statements. A statement may fail:
-- `fails` says for which one in the order of execution; a transaction that fails is rolled back.
pub mod Primary
pub mod Kept
mod Tests
use caddytower.Prelude.{
  ℕ, ◌+◌, ◌==◌, Bool, true, false, not, ◌&&◌, ◌||◌, Option, none, some, List, [], ◌∷◌, ◌++◌, keep,
  exists, find_first, update_where, if◌then◌else◌,
}
use caddytower.Prelude.Sorting.{sort}
use caddytower.Prelude.Effects.{M, Outcome, ok, fail, return, throw, ◌>>=◌, ◌>>◌}
use caddytower.Prelude.Texts.{Text, text_eq, text_lt}
use caddytower.Store.Auth.{StoreError, not_found, database, constraint}

pub record DomainRecord : Type 0 where
  pub id : ℕ
  pub project_id : Text
  pub hostname : Text
  pub is_primary : Bool
  pub dns_verified_at : Option ℕ
  pub created_at : ℕ

-- `has_project` stands for the foreign key; the host names are unique.
pub record DomainTable : Type 0 where
  pub rows : List DomainRecord
  pub next_id : ℕ
  pub has_project : Text → Bool
  pub clock : ℕ
  pub fails : ℕ → Bool
  pub executed : ℕ

abbrev pub Domains : Type 0 → Type 0
Domains A = M DomainTable StoreError A

unfoldable pub execute : Domains (Unit {0})
execute d =
    let t = record d { executed = d.executed + 1 } in
    if d.fails d.executed then fail database t else ok tt t

abbrev pub is_domain : Text → ℕ → DomainRecord → Bool
is_domain project id r = text_eq r.project_id project && r.id == id

abbrev pub found : Option DomainRecord → Domains DomainRecord
found none d = fail not_found d
found (some r) d = ok r d

unfoldable pub get_project_domain : Text → ℕ → Domains DomainRecord
unfolding execute find_first text_eq
get_project_domain project id = execute >> λ d. found (find_first (is_domain project id) d.rows) d

-- `ORDER BY is_primary DESC, hostname ASC`.
abbrev domain_less : DomainRecord → DomainRecord → Bool
unfolding text_lt
domain_less a b =
    if a.is_primary
    then not b.is_primary || text_lt a.hostname b.hostname
    else not b.is_primary && text_lt a.hostname b.hostname

unfoldable pub list_project_domains : Text → Domains (List DomainRecord)
unfolding execute keep sort text_eq text_lt
list_project_domains project =
    execute >> λ d. ok (sort domain_less (keep (λ r. text_eq r.project_id project) d.rows)) d

abbrev pub without_primary : DomainRecord → DomainRecord
without_primary r = record r { is_primary = false }

abbrev pub of_project : Text → DomainRecord → Bool
of_project project r = text_eq r.project_id project

unfoldable pub clear_primary : Text → Domains (Unit {0})
unfolding execute update_where text_eq
clear_primary project = execute >> λ d.
    ok tt (record d { rows = update_where (of_project project) without_primary d.rows })

abbrev pub has_hostname : Text → DomainRecord → Bool
has_hostname host r = text_eq r.hostname host

abbrev pub row_for : DomainRecord → DomainTable → DomainRecord
row_for r d = record r { id = d.next_id; created_at = d.clock }

unfoldable pub insert_domain : DomainRecord → Domains ℕ
unfolding execute exists text_eq
insert_domain r = execute >> λ d.
    if not (d.has_project r.project_id) || exists (has_hostname r.hostname) d.rows
    then fail constraint d
    else ok d.next_id (record d { rows = d.rows ++ row_for r d ∷ []; next_id = d.next_id + 1 })

-- A transaction: its statements, then `COMMIT`; a failure restores the rows.
unfoldable pub transaction : {A : Type 0} → Domains A → Domains A
unfolding execute
transaction body d = elim ((body >>= λ x. execute >> return x) d) [
  | ok x t ↦ ok x t
  | fail e t ↦ fail e (record t { rows = d.rows; next_id = d.next_id })
]

unfoldable pub create_project_domain : DomainRecord → Domains DomainRecord
unfolding transaction clear_primary insert_domain get_project_domain execute
create_project_domain r = do
  execute
  id ←
      transaction
        ((if r.is_primary then clear_primary r.project_id else return tt) >> insert_domain r)
  get_project_domain r.project_id id

unfoldable pub delete_project_domain : Text → ℕ → Domains (Unit {0})
unfolding execute exists keep text_eq
delete_project_domain project id = execute >> λ d.
    if exists (is_domain project id) d.rows
    then ok tt (record d { rows = keep (λ r. not (is_domain project id r)) d.rows })
    else fail not_found d

unfoldable pub mark_project_domain_verified : Text → ℕ → ℕ → Domains (Unit {0})
unfolding execute exists update_where text_eq
mark_project_domain_verified project id at = execute >> λ d.
    if exists (is_domain project id) d.rows
    then ok tt (record d {
      rows =
          update_where (is_domain project id) (λ r. record r { dns_verified_at = some at }) d.rows;
    })
    else fail not_found d
