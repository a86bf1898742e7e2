-- ===== src/Store/Deploys.antt =====
-- internal/store/project_page.go: the table `project_deploys` and its statements. A statement may
-- fail: `fails` says for which one in the order of execution.
use caddytower.Prelude.{
  ℕ, ◌+◌, ltb, ◌==◌, Bool, ◌&&◌, Option, none, some, List, [], ◌∷◌, keep, exists, find_first,
  update_where, take, if◌then◌else◌,
}
use caddytower.Prelude.Texts.{Text, codes, text_eq}
use caddytower.Prelude.Sorting.{sort}
use caddytower.Prelude.Effects.{M, ok, fail, ◌>>=◌, ◌>>◌}
use caddytower.Store.Auth.{StoreError, not_found, database, constraint}

pub record DeployRecord : Type 0 where
  pub id : ℕ
  pub project_id : Text
  pub image_digest : Text
  pub image_ref : Text
  pub status : Text
  pub trigger : Text
  pub actor : Text
  pub started_at : ℕ
  pub finished_at : Option ℕ
  pub error : Text

-- `next_id` is the key that the table gives out next; `has_project` stands for the foreign key.
pub record DeployTable : Type 0 where
  pub rows : List DeployRecord
  pub next_id : ℕ
  pub has_project : Text → Bool
  pub clock : ℕ
  pub fails : ℕ → Bool
  pub executed : ℕ

abbrev pub Deploys : Type 0 → Type 0
Deploys A = M DeployTable StoreError A

unfoldable pub execute : Deploys (Unit {0})
execute d =
    let d' = record d { executed = d.executed + 1 } in
    if d.fails d.executed then fail database d' else ok tt d'

abbrev pub is_deploy : Text → ℕ → DeployRecord → Bool
is_deploy project id r = text_eq r.project_id project && r.id == id

abbrev pub row_found : {A : Type 0} → Option A → Deploys A
row_found none d = fail not_found d
row_found (some a) d = ok a d

unfoldable pub get_project_deploy : Text → ℕ → Deploys DeployRecord
unfolding execute
get_project_deploy project id = do
  execute
  row ← λ d. ok (find_first (is_deploy project id) d.rows) d
  row_found row

abbrev pub new_row : Text → Text → Text → Text → DeployTable → DeployRecord
new_row project image trigger actor d = record {
  id = d.next_id;
  project_id = project;
  image_digest = [];
  image_ref = image;
  status = codes "running";
  trigger = trigger;
  actor = actor;
  started_at = d.clock;
  finished_at = none;
  error = [];
}

abbrev pub insert_row : Text → Text → Text → Text → Deploys ℕ
insert_row project image trigger actor d =
    if d.has_project project
    then ok d.next_id (record d {
      rows = new_row project image trigger actor d ∷ d.rows;
      next_id = d.next_id + 1;
    })
    else fail constraint d

unfoldable pub start_project_deploy : Text → Text → Text → Text → Deploys DeployRecord
unfolding execute get_project_deploy
start_project_deploy project image trigger actor = do
  execute
  id ← insert_row project image trigger actor
  get_project_deploy project id

abbrev pub finish_row : Text → Text → Text → ℕ → DeployRecord → DeployRecord
finish_row status digest error at r = record r {
  status = status;
  image_digest = digest;
  error = error;
  finished_at = some at;
}

abbrev pub update_rows :
    (DeployRecord → Bool) → (ℕ → DeployRecord → DeployRecord) → Deploys (Unit {0})
update_rows query change d =
    if exists query d.rows
    then ok tt (record d { rows = update_where query (change d.clock) d.rows })
    else fail not_found d

unfoldable pub finish_project_deploy : Text → ℕ → Text → Text → Text → Deploys (Unit {0})
unfolding execute
finish_project_deploy project id status digest error = do
  execute
  update_rows (is_deploy project id) (finish_row status digest error)

-- `ORDER BY started_at DESC, id DESC`.
abbrev pub newer : DeployRecord → DeployRecord → Bool
newer a b = if a.started_at == b.started_at then ltb b.id a.id else ltb b.started_at a.started_at

-- `limit` 0 is no limit.
unfoldable pub list_project_deploys : Text → ℕ → Deploys (List DeployRecord)
unfolding execute sort
list_project_deploys project limit = do
  execute
  λ d.
      let rows = sort newer (keep (λ r. text_eq r.project_id project) d.rows) in
      ok (if limit == 0 then rows else take limit rows) d
