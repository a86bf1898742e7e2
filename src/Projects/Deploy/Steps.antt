-- ===== src/Projects/Deploy/Steps.antt =====
-- The steps of `applyProject` (internal/projects/service.go) and the deployments that are running.
use caddytower.Prelude.{
  ℕ, zero, suc, ◌+◌, refl, inl, inr, Bool, true, false, not, ◌&&◌, List, [], ◌∷◌, is_empty,
  Bool-cases, leb, ltb, ◌-◌, ◌*◌, if◌then◌else◌, ◌||◌,
}
use caddytower.Prelude.Texts.{Text, codes, text_eq}
use caddytower.Prelude.Effects.{
  Outcome, ok, fail, Ends, done, failed, then-Ends, Ends-mono, ◌>>◌, throw,
}
use caddytower.Caddy.{is_blank}
use caddytower.Store.Auth.{StoreError}
use caddytower.Store.Deploys.{DeployRecord, DeployTable}
use caddytower.Projects.{
  Project, Failure, Parts, ServiceState, should_pull_image, container_spec, is_web, second,
}
use caddytower.Projects.Deploy.{
  Service, part, emit, record_failure, guarded, health_loop, wait_for_project_healthy, pull,
  run_container, after_unhealthy, check_health, find_pin, previous_healthy_pin,
}
use caddytower.Projects.Deploy.Table.{Open, Closed, finish-Closes, list-Goes}

module _ (p : Parts) (x : Project) (id : ℕ) where
  abbrev pub Closes : Outcome (ServiceState p.World) Failure (Unit {0}) → Type 0
  Closes = Ends (λ _ t. Closed t.table) (λ _ t. Closed t.table)

  -- A step that fails only with the table as open as it was.
  abbrev pub Goes : {A : Type 0} → Outcome (ServiceState p.World) Failure A → Type 0
  Goes = Ends (λ _ t. Open x.id id t.table) (λ _ t. Open x.id id t.table)

  -- A step that closes the record where it fails.
  abbrev pub Guards : {A : Type 0} → Outcome (ServiceState p.World) Failure A → Type 0
  Guards = Ends (λ _ t. Open x.id id t.table) (λ _ t. Closed t.table)

  -- The state after an event of the project.
  abbrev pub told : Text → Text → ServiceState p.World → ServiceState p.World
  told stage status s = record s {
    events = record { project_id = x.id; stage = stage; status = status } ∷ s.events;
  }

  pub stored-Closes :
      (s : ServiceState p.World) {o : Outcome DeployTable StoreError (Unit {0})}
      → Ends (λ _ t. Closed t) (λ _ t. Closed t) o
      → Closes (elim o [
        | ok a d ↦ ok a (record s { table = d })
        | fail e d ↦ fail (Failure.store e) (record s { table = d })
      ])
  stored-Closes s (done h) = done h
  stored-Closes s (failed h) = failed h

  pub part-Goes :
      {A : Type 0} (s : ServiceState p.World) (o : Outcome p.World Text A)
      → Open x.id id s.table
      → Goes (elim o [
        | ok a w ↦ ok a (record s { world = w })
        | fail e w ↦ fail (Failure.other e) (record s { world = w })
      ])
  part-Goes s (ok a w) h = done h
  part-Goes s (fail e w) h = failed h

  pub record_failure-Closes :
      (digest : Text) (e : Failure) (s : ServiceState p.World)
      → Open x.id id s.table
      → Closes (record_failure p x.id id digest e s)
  unfolding record_failure text_eq
  record_failure-Closes digest e s o =
      stored-Closes (told (codes "failed") (codes "failed") s)
        (finish-Closes x.id id (codes "failed") digest (p.message e) s.table refl o)

  pub guarded-Guards :
      {A : Type 0} (digest : Text) (m : Service p A) (s : ServiceState p.World)
      → Goes (m s)
      → Guards (guarded p x.id id digest m s)
  unfolding guarded
  guarded-Guards {A} digest m s h = go (m s) h
    where
      go :
          (o : Outcome (ServiceState p.World) Failure A)
          → Goes o
          → Guards (elim o [
            | ok a t ↦ ok a t
            | fail e t ↦ (do record_failure p x.id id digest e; throw e) t
          ])
      go (ok a t) (done h) = done h
      go (fail e t) (failed h) =
          then-Ends {R = λ _ u. Closed u.table} _ (record_failure-Closes digest e t h)
            λ _ u c. failed c

  health_loop-Goes :
      (n : ℕ) (url : Text) (timeout deadline attempt : ℕ) (s : ServiceState p.World)
      → Open x.id id s.table
      → Goes (health_loop p n x.id url timeout deadline attempt s)
  unfolding health_loop
  health_loop-Goes zero url timeout deadline attempt s o = failed o
  health_loop-Goes (suc n) url timeout deadline attempt s o =
      attempted (λ t q. health_loop-Goes n url timeout deadline (attempt + 1) t q)
        (p.check_http url (timeout * second) s.world)
    where
      attempted :
          ((t : ServiceState p.World)
            → Open x.id id t.table
            → Goes (health_loop p n x.id url timeout deadline (attempt + 1) t))
          → (r : Outcome p.World Text (Unit {0}))
          → Goes (elim r [
            | ok _ w ↦ ok tt (record s { world = w })
            | fail e w ↦
                if leb deadline (p.now w)
                then fail (Failure.unhealthy attempt (3 * timeout) e) (record s { world = w })
                else (do
                  emit p x.id (codes "health-check") (codes "running")
                  part p (
                      p.wait
                        (if ltb (deadline - p.now w) second then deadline - p.now w else second))
                  health_loop p n x.id url timeout deadline (attempt + 1))
                    (record s { world = w })
          ])
      attempted again (ok _ w) = done o
      attempted again (fail e w) = elim (Bool-cases (leb deadline (p.now w))) [
        | inl late ↦ rw late (failed o)
        | inr early ↦ rw early (
            then-Ends {R = λ _ t. Open x.id id t.table} _
              (part-Goes (told (codes "health-check") (codes "running") (record s { world = w }))
                (p.wait (if ltb (deadline - p.now w) second then deadline - p.now w else second) w)
                o)
              λ _ t q. again t q)
      ]

  pub run_container-Guards :
      (s : ServiceState p.World) → Open x.id id s.table → Guards (run_container p id x s)
  unfolding run_container
  run_container-Guards s o = elim (Bool-cases p.has_docker) [
    | inr bare ↦ rw bare (done o)
    | inl docker ↦ rw docker (
        then-Ends {R = λ _ t. Open x.id id t.table} _
          (pulled (told (codes "pull") (codes "running") s) o)
          λ _ t q.
            guarded-Guards [] (part p (p.recreate_container (container_spec x)))
              (told (codes "container") (codes "running") t)
              (part-Goes (told (codes "container") (codes "running") t)
                (p.recreate_container (container_spec x) t.world) q))
  ]
    where
      pulled : (t : ServiceState p.World) → Open x.id id t.table → Guards (pull p x.id id x t)
      pulled t q = elim (Bool-cases (should_pull_image x.image_ref)) [
        | inl y ↦ rw y (
            guarded-Guards [] (part p (p.pull_image x.image_ref)) t
              (part-Goes t (p.pull_image x.image_ref t.world) q))
        | inr n ↦ rw n (done q)
      ]

  after_unhealthy-Closes :
      (rollback : Text → Service p (Unit {0})) (pin : Text) (disabled : Bool) (e : Failure)
      (s : ServiceState p.World)
      → ((t : ServiceState p.World) → Closed t.table → Closes (rollback pin t))
      → Closed s.table
      → Ends (λ _ _. ⊥) (λ _ t. Closed t.table) (after_unhealthy p rollback x pin disabled e s)
  unfolding after_unhealthy
  after_unhealthy-Closes rollback pin disabled e s closes c =
      elim (Bool-cases (is_empty pin || disabled)) [
        | inl y ↦ rw y (failed c)
        | inr n ↦ rw n (
            rolled
              (rollback pin (record s {
                events =
                    record { project_id = x.id; stage = codes "rollback"; status = codes "running" }
                    ∷ s.events;
              }))
              (closes _ c))
      ]
    where
      rolled :
          (o : Outcome (ServiceState p.World) Failure (Unit {0}))
          → Closes o
          → Ends {A = Unit {0}}
              (λ _ _. ⊥)
              (λ _ t. Closed t.table)
              (elim o [
                | ok _ t ↦ fail (Failure.rolled_back e) t
                | fail f t ↦ fail (Failure.rollback_failed e f) t
              ])
      rolled (ok _ t) (done h) = failed h
      rolled (fail f t) (failed h) = failed h

  pub check_health-Guards :
      (rollback : Text → Service p (Unit {0})) (digest pin : Text) (disabled : Bool)
      (s : ServiceState p.World)
      → ((t : ServiceState p.World) → Closed t.table → Closes (rollback pin t))
      → Open x.id id s.table
      → Guards (check_health p rollback id digest pin x disabled s)
  unfolding check_health wait_for_project_healthy
  check_health-Guards rollback digest pin disabled s closes o =
      elim (Bool-cases (is_web x && not (is_blank x.health_check_path))) [
        | inr skip ↦ rw skip (done o)
        | inl check ↦ rw check (
            answered
              (wait_for_project_healthy p x (told (codes "health-check") (codes "running") s))
              (health_loop-Goes _ _ _ _ _ (told (codes "health-check") (codes "running") s) o))
      ]
    where
      answered :
          (r : Outcome (ServiceState p.World) Failure (Unit {0}))
          → Goes r
          → Guards (elim r [
            | ok _ t ↦ emit p x.id (codes "health-check") (codes "live") t
            | fail f t ↦
                (do record_failure p x.id id digest f; after_unhealthy p rollback x pin disabled f)
                  t
          ])
      answered (ok _ t) (done h) = done h
      answered (fail f t) (failed h) =
          then-Ends {R = λ _ u. Closed u.table} _ (record_failure-Closes digest f t h) λ _ u c.
            Ends-mono (after_unhealthy-Closes rollback pin disabled f u closes c)
              (λ _ _ no. absurd no) (λ _ _ k. k)

  pub find_pin-Goes :
      (disabled : Bool) (s : ServiceState p.World)
      → Open x.id id s.table
      → Ends (λ _ t. Open x.id id t.table) (λ _ _. ⊥) (find_pin p x.id id disabled s)
  unfolding find_pin
  find_pin-Goes true s o = done o
  find_pin-Goes false s o = caught (listed (list-Goes x.id id x.id 20 s.table o))
    where
      listed :
          {r : Outcome DeployTable StoreError (List DeployRecord)}
          → Ends (λ _ d. Open x.id id d) (λ _ d. Open x.id id d) r
          → Goes {A = List DeployRecord} (elim r [
            | ok a d ↦ ok a (record s { table = d })
            | fail e d ↦ fail (Failure.store e) (record s { table = d })
          ])
      listed (done h) = done h
      listed (failed h) = failed h

      caught :
          {r : Outcome (ServiceState p.World) Failure (List DeployRecord)}
          → Goes r
          → Ends {E = Failure} {A = Text}
              (λ _ t. Open x.id id t.table)
              (λ _ _. ⊥)
              (elim r [ ok rows t ↦ ok (previous_healthy_pin id rows) t | fail e t ↦ ok [] t ])
      caught (done h) = done h
      caught (failed h) = done h
