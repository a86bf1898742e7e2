-- ===== src/Projects/Deploy/Table.antt =====
-- What the statements on `project_deploys` (internal/store/project_page.go) do to the deployments that
-- are running.
use caddytower.Prelude.{
  ℕ, ◌+◌, ◌≡◌, refl, ◌∙◌, ◌⊎◌, inl, inr, Bool, true, false, Option, some, List, [], ◌∷◌, All,
  exists, update_where, find_first, All-mono, ==_iff, ap, arith, Bool-cases, ◌==◌,
}
use caddytower.Prelude.Texts.{Text, codes, text_eq, text_eq_refl}
use caddytower.Prelude.Effects.{ok, Ends, done, failed, bind-Ends, then-Ends, Ends-mono}
use caddytower.Store.Auth.{StoreError}
use caddytower.Store.Deploys.{
  DeployRecord, DeployTable, execute, is_deploy, start_project_deploy, finish_project_deploy,
  list_project_deploys, get_project_deploy, finish_row, new_row, row_found, insert_row,
}

abbrev pub is_running : DeployRecord → Bool
is_running r = text_eq r.status (codes "running")

-- No statement fails, and no deployment is running.
abbrev pub Closed : DeployTable → Type 0
Closed d = ((n : ℕ) → d.fails n ≡ false) × All (λ r. is_running r ≡ false) d.rows

-- No statement fails, and no deployment is running but those under one project and key.
abbrev pub Open : Text → ℕ → DeployTable → Type 0
Open project id d =
    ((n : ℕ) → d.fails n ≡ false)
    × All (λ r. (is_running r ≡ false) ⊎ (is_deploy project id r ≡ true)) d.rows

execute-works :
    (d : DeployTable)
    → ((n : ℕ) → d.fails n ≡ false)
    → execute d ≡ ok tt (record d { executed = d.executed + 1 })
unfolding execute
execute-works d h = rw (h d.executed) refl

-- A statement that is executed changes nothing that the two predicates read.
pub execute-Ends :
    {Q : StoreError → DeployTable → Type 0} (P : DeployTable → Type 0) (d : DeployTable)
    → ((n : ℕ) → d.fails n ≡ false)
    → P (record d { executed = d.executed + 1 })
    → Ends (λ _ t. P t) Q (execute d)
execute-Ends P d h p = rw (execute-works d h) (done p)

module _ (project : Text) (id : ℕ) where
  finish_rows :
      (status digest error : Text) (at : ℕ) (rows : List DeployRecord)
      → text_eq status (codes "running") ≡ false
      → All (λ r. (is_running r ≡ false) ⊎ (is_deploy project id r ≡ true)) rows
      → All
          (λ r. is_running r ≡ false)
          (update_where (is_deploy project id) (finish_row status digest error at) rows)
  unfolding update_where
  finish_rows status digest error at [] h o = tt
  finish_rows status digest error at (r ∷ rs) h o = elim (Bool-cases (is_deploy project id r)) [
    | inl e ↦ rw e (h, finish_rows status digest error at rs h o.1)
    | inr e ↦ rw e (elim o.0 [
      | inl n ↦ (n, finish_rows status digest error at rs h o.1)
      | inr y ↦ absurd (cc)
    ])
  ]

  unmatched :
      (rows : List DeployRecord)
      → exists (is_deploy project id) rows ≡ false
      → All (λ r. (is_running r ≡ false) ⊎ (is_deploy project id r ≡ true)) rows
      → All (λ r. is_running r ≡ false) rows
  unfolding exists
  unmatched [] h o = tt
  unmatched (r ∷ rs) h o = elim (Bool-cases (is_deploy project id r)) [
    | inl e ↦ absurd (ground arith)
    | inr e ↦ (elim o.0 [ inl n ↦ n | inr y ↦ absurd cc ], unmatched rs (ground arith) o.1)
  ]

  pub finish-Closes :
      (status digest error : Text) (d : DeployTable)
      → text_eq status (codes "running") ≡ false
      → Open project id d
      → Ends
          (λ _ t. Closed t)
          (λ _ t. Closed t)
          (finish_project_deploy project id status digest error d)
  unfolding finish_project_deploy
  finish-Closes status digest error d h o =
      then-Ends _ (execute-Ends (Open project id) d o.0 o) λ _ t q.
        elim (Bool-cases (exists (is_deploy project id) t.rows)) [
          | inl e ↦ rw e (done (q.0, finish_rows status digest error t.clock t.rows h q.1))
          | inr e ↦ rw e (failed (q.0, unmatched t.rows e q.1))
        ]

-- What `INSERT` adds: one row, under the next key.
abbrev Inserted : Text → DeployRecord → DeployTable → ℕ → DeployTable → Type 0
Inserted project row t id u = (id ≡ t.next_id) × (u.rows ≡ row ∷ t.rows) × (u.fails ≡ t.fails)

insert_row-Ends :
    (project image trigger actor : Text) (t : DeployTable)
    → Ends
        (λ id u. Inserted project (new_row project image trigger actor t) t id u)
        (λ _ u. u ≡ t)
        (insert_row project image trigger actor t)
insert_row-Ends project image trigger actor t = elim (Bool-cases (t.has_project project)) [
  | inl e ↦ rw e (done (refl, refl, refl))
  | inr e ↦ rw e (failed refl)
]

row_found-Ends :
    (o : Option DeployRecord) (row : DeployRecord) (d : DeployTable)
    → o ≡ some row
    → Ends (λ r t. (r ≡ row) × (t ≡ d)) (λ _ _. ⊥) (row_found o d)
row_found-Ends o row d e = rw e (done (refl, refl))

get_project_deploy-Ends :
    (project : Text) (id : ℕ) (row : DeployRecord) (rest : List DeployRecord) (d : DeployTable)
    → ((n : ℕ) → d.fails n ≡ false)
    → d.rows ≡ row ∷ rest
    → is_deploy project id row ≡ true
    → Ends
        (λ r t. (r ≡ row) × (t.rows ≡ d.rows) × (t.fails ≡ d.fails))
        (λ _ _. ⊥)
        (get_project_deploy project id d)
unfolding get_project_deploy find_first
get_project_deploy-Ends project id row rest d works e m =
    then-Ends _ (execute-Ends (λ t. (t.rows ≡ d.rows) × (t.fails ≡ d.fails)) d works (refl, refl))
      λ _ t q.
        Ends-mono
          (row_found-Ends (find_first (is_deploy project id) t.rows) row t
            (ap (find_first (is_deploy project id)) (q.0 ∙ e) ∙ rw m refl))
          (λ r u h. rw h.1 (h.0, q.0, q.1)) (λ _ _ no. absurd no)

-- A new record is the only one that runs.
pub start-Opens :
    (project image trigger actor : Text) (d : DeployTable)
    → Closed d
    → Ends
        (λ r t. Open project r.id t)
        (λ _ t. Closed t)
        (start_project_deploy project image trigger actor d)
unfolding start_project_deploy
start-Opens project image trigger actor d c = then-Ends _ (execute-Ends Closed d c.0 c) λ _ t q.
    bind-Ends
      (Ends-mono (insert_row-Ends project image trigger actor t) (λ id u h. h) (λ e u h. rw h q))
      λ id u h.
        let row = new_row project image trigger actor t in
        let same : (t.next_id == t.next_id) ≡ true = (==_iff t.next_id t.next_id).1 refl in
        let found : is_deploy project t.next_id row ≡ true = rw (text_eq_refl project) same in
        let works : (n : ℕ) → u.fails n ≡ false = rw h.2 q.0 in
        Ends-mono (get_project_deploy-Ends project id row t.rows u works h.1 (rw h.0 found))
          (λ r v k.
            (rw k.2 works, rw (k.1 ∙ h.1) (inr (rw k.0 found), All-mono t.rows (λ x n. inl n) q.1)))
          (λ _ _ no. absurd no)

-- Reading the deploys keeps the table.
pub list-Goes :
    (project : Text) (id : ℕ) (of : Text) (limit : ℕ) (d : DeployTable)
    → Open project id d
    → Ends (λ _ t. Open project id t) (λ _ t. Open project id t) (list_project_deploys of limit d)
unfolding list_project_deploys
list-Goes project id of limit d o =
    then-Ends _ (execute-Ends (Open project id) d o.0 o) λ _ t q. done q
