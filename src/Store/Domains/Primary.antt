-- ===== src/Store/Domains/Primary.antt =====
-- Every project has at most one primary domain (internal/store/project_page.go).
use caddytower.Prelude.{
  ℕ, ◌≡◌, refl, Bool, false, ◌&&◌, Option, none, some, List, [], ◌∷◌, ◌++◌, keep, exists,
  update_where, find_first, All, All-append, if_holds, if◌then◌else◌, arith,
}
use caddytower.Prelude.Effects.{ok, Ends, done, failed, then-Ends, Ends-mono, return}
use caddytower.Prelude.Texts.{Text, text_eq, text_eq_comm}
use caddytower.Store.Auth.{StoreError}
use caddytower.Store.Domains.{
  DomainRecord, DomainTable, Domains, execute, is_domain, found, get_project_domain,
  without_primary, of_project, clear_primary, has_hostname,
}

-- Not both primary for one project, and with different host names.
abbrev pub Agrees : DomainRecord → DomainRecord → Type 0
Agrees r q =
    ((r.is_primary && q.is_primary && text_eq q.project_id r.project_id) ≡ false)
    × (text_eq q.hostname r.hostname ≡ false)

abbrev pub OnePrimary : List DomainRecord → Type 0
OnePrimary [] = Unit
OnePrimary (r ∷ rs) = All (Agrees r) rs × OnePrimary rs

abbrev pub Sound : DomainTable → Type 0
Sound d = OnePrimary d.rows

-- A change of rows that keeps project and host name and makes no row primary.
abbrev pub Tames : (DomainRecord → DomainRecord) → Type 0
Tames f = (r q : DomainRecord) → Agrees r q → Agrees (f r) q × Agrees r (f q) × Agrees (f r) (f q)

module _ (p : DomainRecord → Bool) (f : DomainRecord → DomainRecord) (tame : Tames f) where
  update-All :
      (r : DomainRecord) (rs : List DomainRecord)
      → All (Agrees r) rs
      → All (Agrees (if p r then f r else r)) (update_where p f rs)
  unfolding update_where
  update-All r [] h = tt
  update-All r (q ∷ qs) h = (
    if_holds (λ (x : DomainRecord). Agrees x (if p q then f q else q)) (p r)
        (λ _. if_holds (Agrees (f r)) (p q) (λ _. (tame r q h.0).2) (λ _. (tame r q h.0).0))
        (λ _. if_holds (Agrees r) (p q) (λ _. (tame r q h.0).1) (λ _. h.0)),
    update-All r qs h.1,
  )

  pub update-OnePrimary :
      (rs : List DomainRecord) → OnePrimary rs → OnePrimary (update_where p f rs)
  unfolding update_where
  update-OnePrimary [] h = tt
  update-OnePrimary (r ∷ rs) h = (update-All r rs h.0, update-OnePrimary rs h.1)

keep-All :
    (r : DomainRecord) (p : DomainRecord → Bool) (rs : List DomainRecord)
    → All (Agrees r) rs
    → All (Agrees r) (keep p rs)
unfolding keep
keep-All r p [] h = tt
keep-All r p (q ∷ qs) h =
    if_holds (All (Agrees r)) (p q) (λ _. (h.0, keep-All r p qs h.1)) (λ _. keep-All r p qs h.1)

pub keep-OnePrimary :
    (p : DomainRecord → Bool) (rs : List DomainRecord) → OnePrimary rs → OnePrimary (keep p rs)
unfolding keep
keep-OnePrimary p [] h = tt
keep-OnePrimary p (r ∷ rs) h =
    if_holds OnePrimary (p r) (λ _. (keep-All r p rs h.0, keep-OnePrimary p rs h.1))
      (λ _. keep-OnePrimary p rs h.1)

-- A row can be added that is not primary, or whose project has no primary row.
abbrev pub Admits : DomainRecord → DomainRecord → Type 0
Admits r q = (q.is_primary && r.is_primary && text_eq r.project_id q.project_id) ≡ false

pub append-OnePrimary :
    (rs : List DomainRecord) (r : DomainRecord)
    → exists (has_hostname r.hostname) rs ≡ false
    → All (Admits r) rs
    → OnePrimary rs
    → OnePrimary (rs ++ r ∷ [])
unfolding exists
append-OnePrimary [] r e a h = (tt, tt)
append-OnePrimary (q ∷ qs) r e a h =
    let turned = text_eq_comm r.hostname q.hostname in
    (
      All-append (Agrees q) qs (r ∷ []) h.0 ((a.0, ground arith), tt),
      append-OnePrimary qs r (ground arith) a.1 h.1,
    )

pub execute-Same :
    (d : DomainTable) → Ends (λ _ t. t.rows ≡ d.rows) (λ _ t. t.rows ≡ d.rows) (execute d)
unfolding execute
execute-Same d =
    if_holds (Ends (λ _ t. t.rows ≡ d.rows) (λ _ t. t.rows ≡ d.rows)) (d.fails d.executed)
      (λ _. failed refl) (λ _. done refl)

-- Soundness is a matter of the rows.
same-Sound : (d t : DomainTable) → t.rows ≡ d.rows → Sound d → Sound t
same-Sound d t e h = rw e h

pub executed-Sound :
    (d : DomainTable) → Sound d → Ends (λ _ t. Sound t) (λ _ t. Sound t) (execute d)
executed-Sound d h =
    Ends-mono (execute-Same d) (λ _ t e. same-Sound d t e h) (λ _ t e. same-Sound d t e h)

found-Sound :
    (o : Option DomainRecord) (d : DomainTable)
    → Sound d
    → Ends (λ _ t. Sound t) (λ _ t. Sound t) (found o d)
found-Sound none d h = failed h
found-Sound (some r) d h = done h

pub get-Sound :
    (project : Text) (id : ℕ) (d : DomainTable)
    → Sound d
    → Ends (λ _ t. Sound t) (λ _ t. Sound t) (get_project_domain project id d)
unfolding get_project_domain
get-Sound project id d h =
    then-Ends _ (executed-Sound d h)
      (λ _ t k. found-Sound (find_first (is_domain project id) t.rows) t k)

tame_clear : Tames without_primary
tame_clear r q h = ((refl, h.1), (ground arith, h.1), (refl, h.1))

-- No row of the project is primary.
abbrev NonePrimary : Text → List DomainRecord → Type 0
NonePrimary project = All (λ q. (q.is_primary && of_project project q) ≡ false)

cleared-NonePrimary :
    (project : Text) (rs : List DomainRecord)
    → NonePrimary project (update_where (of_project project) without_primary rs)
unfolding update_where
cleared-NonePrimary project [] = tt
cleared-NonePrimary project (r ∷ rs) = (
  if_holds (λ (q : DomainRecord). (q.is_primary && of_project project q) ≡ false)
      (of_project project r) (λ _. refl) (λ e. ground arith),
  cleared-NonePrimary project rs,
)

plain_fits : (r : DomainRecord) (rs : List DomainRecord) → r.is_primary ≡ false → All (Admits r) rs
plain_fits r [] e = tt
plain_fits r (q ∷ qs) e = (ground arith, plain_fits r qs e)

primary_fits :
    (r : DomainRecord) (rs : List DomainRecord) → NonePrimary r.project_id rs → All (Admits r) rs
primary_fits r [] h = tt
primary_fits r (q ∷ qs) h =
    let turned = text_eq_comm r.project_id q.project_id in
    let none = h.0 in (ground arith, primary_fits r qs h.1)

pub prepared-Admits :
    (r : DomainRecord) (d : DomainTable)
    → Sound d
    → Ends {E = StoreError}
        (λ _ t. Sound t × All (Admits r) t.rows)
        (λ _ _. Unit {0})
        ((if r.is_primary then clear_primary r.project_id else return tt) d)
unfolding clear_primary
prepared-Admits r d h =
    if_holds
      (λ (m : Domains (Unit {0})).
        Ends (λ _ t. Sound t × All (Admits r) t.rows) (λ _ _. Unit {0}) (m d))
      r.is_primary
      (λ _.
        Ends-mono
          (then-Ends
            (λ (t : DomainTable).
              ok tt
                (record t { rows = update_where (of_project r.project_id) without_primary t.rows }))
            (executed-Sound d h)
            (λ _ t k. done (
              update-OnePrimary (of_project r.project_id) without_primary tame_clear t.rows k,
              primary_fits r _ (cleared-NonePrimary r.project_id t.rows),
            )))
          (λ _ _ k. k) (λ _ _ _. tt))
      (λ e. done (h, plain_fits r d.rows e))
