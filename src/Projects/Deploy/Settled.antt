-- ===== src/Projects/Deploy/Settled.antt =====
-- No deployment stays in the state `running` (`applyProject`, internal/projects/service.go).
use caddytower.Prelude.{ℕ, refl, inl, inr, Bool, ◌&&◌, [], is_empty, Bool-cases}
use caddytower.Prelude.Texts.{Text, codes, text_eq, trim_space}
use caddytower.Prelude.Effects.{
  Outcome, ok, fail, Ends, done, failed, bind-Ends, then-Ends, Ends-mono,
}
use caddytower.Store.Auth.{StoreError}
use caddytower.Store.Deploys.{DeployRecord, DeployTable}
use caddytower.Projects.{Project, Settings, DeployRequest, Failure, Parts, ServiceState, is_web}
use caddytower.Projects.Deploy.{
  Service, part, carry_out, apply_with, auto_rollback_project, apply_project, no_rollback,
  rollback_request,
}
use caddytower.Projects.Deploy.Table.{Open, Closed, finish-Closes, start-Opens}
use caddytower.Projects.Deploy.Steps.{
  Closes, guarded-Guards, part-Goes, run_container-Guards, check_health-Guards, find_pin-Goes,
  stored-Closes, told,
}

module _ (p : Parts) where
  carry_out-Closes :
      (rollback : Text → Service p (Unit {0})) (id : ℕ) (x : Project) (settings : Settings)
      (disabled : Bool) (s : ServiceState p.World)
      → ((pin : Text) (t : ServiceState p.World) → Closed t.table → Closes p x id (rollback pin t))
      → Open x.id id s.table
      → Closes p x id (carry_out p rollback id x settings disabled s)
  unfolding carry_out text_eq
  carry_out-Closes rollback id x settings disabled s closes o =
      bind-Ends {R = λ _ t. Open x.id id t.table}
        (Ends-mono (find_pin-Goes p x id disabled s o) (λ _ _ h. h) (λ _ _ no. absurd no))
        λ pin s1 o1.
          bind-Ends {R = λ _ t. Open x.id id t.table}
            (run_container-Guards p x id (told p x id (codes "queued") (codes "running") s1) o1)
            λ digest s2 o2.
              then-Ends {R = λ _ t. Open x.id id t.table} _
                (check_health-Guards p x id rollback digest pin disabled s2 (closes pin) o2)
                λ _ s3 o3.
                  let s4 = told p x id (codes "routing") (codes "running") s3 in
                  then-Ends {R = λ _ t. Open x.id id t.table} _
                    (guarded-Guards p x id digest (part p p.reconcile_caddy) s4
                      (part-Goes p x id s4 (p.reconcile_caddy s4.world) o3))
                    λ _ s5 o5.
                      let s6 = told p x id (codes "dns") (codes "running") s5 in
                      then-Ends {R = λ _ t. Open x.id id t.table} _
                        (guarded-Guards p x id digest (part p (p.upsert_cloudflare x settings)) s6
                          (part-Goes p x id s6 (p.upsert_cloudflare x settings s6.world) o5))
                        λ _ s7 o7.
                          let s8 = told p x id (codes "live") (codes "live") s7 in
                          stored-Closes p x id s8
                            (finish-Closes x.id id (codes "live") digest [] s8.table refl o7)

  abbrev Closing : Outcome (ServiceState p.World) Failure (Unit {0}) → Type 0
  Closing = Ends (λ _ t. Closed t.table) (λ _ t. Closed t.table)

  started-Opens :
      (x : Project) (s : ServiceState p.World) {o : Outcome DeployTable StoreError DeployRecord}
      → Ends (λ r t. Open x.id r.id t) (λ _ t. Closed t) o
      → Ends {A = DeployRecord}
          (λ r t. Open x.id r.id t.table)
          (λ _ t. Closed t.table)
          (elim o [
            | ok a d ↦ ok a (record s { table = d })
            | fail e d ↦ fail (Failure.store e) (record s { table = d })
          ])
  started-Opens x s (done h) = done h
  started-Opens x s (failed h) = failed h

  apply_with-Closes :
      (rollback : Text → Service p (Unit {0})) (x : Project) (settings : Settings)
      (request : DeployRequest) (s : ServiceState p.World)
      → ((pin : Text) (t : ServiceState p.World) → Closed t.table → Closing (rollback pin t))
      → Closed s.table
      → Closing (apply_with p rollback x settings request s)
  unfolding apply_with
  apply_with-Closes rollback x settings request s closes c =
      elim (Bool-cases (is_web x && is_empty settings.root_domain)) [
        | inl bare ↦ rw bare (failed c)
        | inr fine ↦ rw fine (
            bind-Ends {R = λ r t. Open x.id r.id t.table}
              (started-Opens x s (start-Opens x.id x.image_ref _ _ s.table c))
              λ r t o.
                carry_out-Closes rollback r.id x settings request.disable_auto_rollback t closes o)
      ]

  called-Closes :
      {A : Type 0} (s : ServiceState p.World) (o : Outcome p.World Text A)
      → Closed s.table
      → Ends {A = A}
          (λ _ t. Closed t.table)
          (λ _ t. Closed t.table)
          (elim o [
            | ok a w ↦ ok a (record s { world = w })
            | fail e w ↦ fail (Failure.other e) (record s { world = w })
          ])
  called-Closes s (ok a w) c = done c
  called-Closes s (fail e w) c = failed c

  auto_rollback-Closes :
      (project pin : Text) (s : ServiceState p.World)
      → Closed s.table
      → Closing (auto_rollback_project p project pin s)
  unfolding auto_rollback_project
  auto_rollback-Closes project pin s c =
      then-Ends {R = λ _ t. Closed t.table} _
        (called-Closes s (p.set_image_ref project (trim_space pin) s.world) c)
        λ _ t c1.
          bind-Ends {R = λ _ u. Closed u.table} (called-Closes t (p.get_project project t.world) c1)
            λ loaded u c2.
              apply_with-Closes (no_rollback p) loaded.0 loaded.1 rollback_request u
                (λ _ _ k. done k) c2

  -- If no deployment is running and no statement of the table fails, then no deployment is running
  -- after `applyProject`, whatever Docker, the health check, Caddy, Cloudflare and the tables of
  -- projects do: on success, on every error and after an automatic rollback.
  pub apply_project-settles :
      (x : Project) (settings : Settings) (request : DeployRequest) (s : ServiceState p.World)
      → Closed s.table
      → Ends (λ _ t. Closed t.table) (λ _ t. Closed t.table) (apply_project p x settings request s)
  unfolding apply_project
  apply_project-settles x settings request s c =
      apply_with-Closes (auto_rollback_project p x.id) x settings request s
        (λ pin t k. auto_rollback-Closes x.id pin t k) c
