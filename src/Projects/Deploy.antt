-- ===== src/Projects/Deploy.antt =====
-- internal/projects/service.go: `applyProject`, `autoRollbackProject`, `waitForProjectHealthy`.
pub mod Table
pub mod Steps
pub mod Settled
pub mod Answers
pub mod Live
mod Tests
pub mod Health
use caddytower.Prelude.{
  ℕ, zero, suc, ◌+◌, ◌-◌, ◌*◌, leb, ltb, ◌==◌, Bool, true, false, not, ◌&&◌, ◌||◌, List, [], ◌∷◌,
  is_empty, if◌then◌else◌,
}
use caddytower.Prelude.Texts.{Text, codes, text_eq, trim_space}
use caddytower.Prelude.Effects.{M, Outcome, ok, fail, ◌>>=◌, ◌>>◌, return, throw}
use caddytower.Caddy.{is_blank}
use caddytower.Store.Deploys.{
  DeployRecord, DeployTable, Deploys, start_project_deploy, finish_project_deploy,
  list_project_deploys,
}
use caddytower.Projects.{
  Project, Settings, DeployRequest, DeployEvent, Failure, no_root_domain, store, other, unhealthy,
  out_of_attempts, rolled_back, rollback_failed, Parts, ServiceState, second, is_web,
  normalized_health_timeout, should_pull_image, fallback_string, container_spec,
}

-- The pin of the first deploy in the list that is live and has one, but for the deploy that runs.
unfoldable pub previous_healthy_pin : ℕ → List DeployRecord → Text
unfolding text_eq trim_space
previous_healthy_pin id [] = []
previous_healthy_pin id (r ∷ rs) =
    let rest = previous_healthy_pin id rs in
    if r.id == id
    then rest
    else if text_eq r.status (codes "live") && not (is_blank r.image_digest)
    then r.image_digest
    else rest

abbrev pub rollback_request : DeployRequest
rollback_request = record {
  trigger = codes "auto-rollback";
  actor = codes "system";
  disable_auto_rollback = true;
}

module _ (p : Parts) where
  abbrev pub Service : Type 0 → Type 0
  Service A = M (ServiceState p.World) Failure A

  abbrev pub stored : {A : Type 0} → Deploys A → Service A
  stored m s = elim (m s.table) [
    | ok a d ↦ ok a (record s { table = d })
    | fail e d ↦ fail (store e) (record s { table = d })
  ]

  -- A call of another part, with its error.
  abbrev pub part : {A : Type 0} → M p.World Text A → Service A
  part m s = elim (m s.world) [
    | ok a w ↦ ok a (record s { world = w })
    | fail e w ↦ fail (other e) (record s { world = w })
  ]

  abbrev pub emit : Text → Text → Text → Service (Unit {0})
  emit project stage status s = ok tt (record s {
    events = record { project_id = project; stage = stage; status = status } ∷ s.events;
  })

  -- What every failing step of a deployment does before its error is returned.
  unfoldable pub record_failure : Text → ℕ → Text → Failure → Service (Unit {0})
  record_failure project deploy digest e = do
    emit project (codes "failed") (codes "failed")
    stored (finish_project_deploy project deploy (codes "failed") digest (p.message e))

  -- A step of a deployment, with that for its error.
  unfoldable pub guarded : {A : Type 0} → Text → ℕ → Text → Service A → Service A
  unfolding record_failure
  guarded project deploy digest m s = elim (m s) [
    | ok a t ↦ ok a t
    | fail e t ↦ (do record_failure project deploy digest e; throw e) t
  ]

  -- The loop of `waitForProjectHealthy`, on fuel; `attempt` counts from 1.
  unfoldable pub health_loop : ℕ → Text → Text → ℕ → ℕ → ℕ → Service (Unit {0})
  health_loop zero project url timeout deadline attempt s = fail out_of_attempts s
  health_loop (suc n) project url timeout deadline attempt s =
      let again : Service (Unit {0}) = health_loop n project url timeout deadline (attempt + 1) in
      elim (p.check_http url (timeout * second) s.world) [
        | ok _ w ↦ ok tt (record s { world = w })
        | fail e w ↦
            if leb deadline (p.now w)
            then fail (unhealthy attempt (3 * timeout) e) (record s { world = w })
            else (do
              emit project (codes "health-check") (codes "running")
              part (p.wait (if ltb (deadline - p.now w) second then deadline - p.now w else second))
              again)
                (record s { world = w })
      ]

  unfoldable pub wait_for_project_healthy : Project → Service (Unit {0})
  unfolding health_loop normalized_health_timeout
  wait_for_project_healthy project s =
      let timeout =
        normalized_health_timeout project.health_check_path project.health_check_timeout in
      health_loop (3 * timeout + 1) project.id (p.health_url project) timeout
        (p.now s.world + 3 * timeout * second) 1 s

  abbrev pub pull : Text → ℕ → Project → Service (Unit {0})
  pull project deploy x s =
      if should_pull_image x.image_ref
      then guarded project deploy [] (part (p.pull_image x.image_ref)) s
      else ok tt s

  -- Pulls the image and recreates the container; the result is the image's digest, and the empty
  -- text where there is no Docker.
  unfoldable pub run_container : ℕ → Project → Service Text
  unfolding guarded should_pull_image container_spec
  run_container deploy project s =
      if p.has_docker
      then (do
        emit project.id (codes "pull") (codes "running")
        pull project.id deploy project
        emit project.id (codes "container") (codes "running")
        guarded project.id deploy [] (part (p.recreate_container (container_spec project))))
          s
      else ok [] s

  -- What a failed health check leads to once it is recorded: the rollback, where there is a pin.
  unfoldable pub after_unhealthy :
      (Text → Service (Unit {0})) → Project → Text → Bool → Failure → Service (Unit {0})
  after_unhealthy rollback project pin disabled e s =
      if is_empty pin || disabled
      then fail e s
      else elim ((do emit project.id (codes "rollback") (codes "running"); rollback pin) s) [
        | ok _ t ↦ fail (rolled_back e) t
        | fail f t ↦ fail (rollback_failed e f) t
      ]

  unfoldable pub check_health :
      (Text → Service (Unit {0})) → ℕ → Text → Text → Project → Bool → Service (Unit {0})
  unfolding wait_for_project_healthy after_unhealthy record_failure text_eq trim_space
  check_health rollback deploy digest pin project disabled s =
      if is_web project && not (is_blank project.health_check_path)
      then elim ((do
        emit project.id (codes "health-check") (codes "running")
        wait_for_project_healthy project)
          s) [
            | ok _ t ↦ emit project.id (codes "health-check") (codes "live") t
            | fail e t ↦
                (do
                  record_failure project.id deploy digest e
                  after_unhealthy rollback project pin disabled e)
                  t
          ]
      else ok tt s

  -- An error of the list is ignored: then there is no pin.
  unfoldable pub find_pin : Text → ℕ → Bool → Service Text
  unfolding previous_healthy_pin list_project_deploys
  find_pin project deploy disabled s =
      if disabled then ok [] s else elim (stored (list_project_deploys project 20) s) [
        | ok rows t ↦ ok (previous_healthy_pin deploy rows) t
        | fail e t ↦ ok [] t
      ]

  -- `applyProject` after the record of the deployment is made; `rollback` is `autoRollbackProject`.
  unfoldable pub carry_out :
      (Text → Service (Unit {0})) → ℕ → Project → Settings → Bool → Service (Unit {0})
  unfolding find_pin run_container check_health guarded finish_project_deploy
  carry_out rollback deploy project settings disabled = do
    pin ← find_pin project.id deploy disabled
    emit project.id (codes "queued") (codes "running")
    digest ← run_container deploy project
    check_health rollback deploy digest pin project disabled
    emit project.id (codes "routing") (codes "running")
    guarded project.id deploy digest (part p.reconcile_caddy)
    emit project.id (codes "dns") (codes "running")
    guarded project.id deploy digest (part (p.upsert_cloudflare project settings))
    emit project.id (codes "live") (codes "live")
    stored (finish_project_deploy project.id deploy (codes "live") digest [])

  unfoldable pub apply_with :
      (Text → Service (Unit {0})) → Project → Settings → DeployRequest → Service (Unit {0})
  unfolding carry_out start_project_deploy fallback_string text_eq
  apply_with rollback project settings request s =
      if is_web project && is_empty settings.root_domain
      then fail no_root_domain s
      else (do
        deploy ← stored (
            start_project_deploy project.id project.image_ref
              (fallback_string request.trigger (codes "deploy")) (trim_space request.actor))
        carry_out rollback deploy.id project settings request.disable_auto_rollback)
          s

  -- A rollback disables the next one, so the rollback of a rollback is never called.
  abbrev pub no_rollback : Text → Service (Unit {0})
  no_rollback pin s = ok tt s

  unfoldable pub auto_rollback_project : Text → Text → Service (Unit {0})
  unfolding apply_with
  auto_rollback_project project pin = do
    part (p.set_image_ref project (trim_space pin))
    loaded ← part (p.get_project project)
    apply_with no_rollback loaded.0 loaded.1 rollback_request

  unfoldable pub apply_project : Project → Settings → DeployRequest → Service (Unit {0})
  unfolding apply_with auto_rollback_project
  apply_project project settings request =
      apply_with (auto_rollback_project project.id) project settings request
