-- ===== src/Projects/Deploy/Answers.antt =====
-- What the steps of a deployment that succeed have been answered (internal/projects/service.go).
use caddytower.Prelude.{
  ℕ, zero, suc, ◌+◌, ◌≡◌, refl, inl, inr, Bool, true, false, not, ◌&&◌, [], is_empty, Bool-cases,
  leb, ltb, ◌-◌, ◌*◌, if◌then◌else◌, ◌||◌,
}
use caddytower.Prelude.Texts.{Text, codes}
use caddytower.Prelude.Effects.{
  M, Outcome, ok, fail, Ends, done, failed, then-Ends, Ends-mono, Ends-const, ◌>>◌, throw,
}
use caddytower.Caddy.{is_blank}
use caddytower.Projects.{
  Project, normalized_health_timeout, container_spec, Failure, Parts, ServiceState, container_spec,
  is_web, second,
}
use caddytower.Projects.Deploy.{
  Service, part, emit, record_failure, guarded, health_loop, wait_for_project_healthy, pull,
  run_container, after_unhealthy, check_health,
}
use caddytower.Projects.Deploy.Steps.{told}

module _ (p : Parts) where
  -- A call of another part that was answered without an error.
  abbrev pub Answered : {A : Type 0} → M p.World Text A → A → Type 0
  Answered m a = (w : p.World) × (w' : p.World) × (m w ≡ ok a w')

  abbrev pub has_health_check : Project → Bool
  has_health_check x = is_web x && not (is_blank x.health_check_path)

  abbrev pub health_request : Project → M p.World Text (Unit {0})
  health_request x =
      p.check_http (p.health_url x)
        (normalized_health_timeout x.health_check_path x.health_check_timeout * second)

  pub part-Answers :
      {A : Type 0} (m : M p.World Text A) (s : ServiceState p.World)
      → Ends (λ a _. Answered m a) (λ _ _. Unit {0}) (part p m s)
  part-Answers {A} m s = go (m s.world) refl
    where
      go :
          (o : Outcome p.World Text A)
          → m s.world ≡ o
          → Ends {E = Failure} {A = A}
              (λ a _. Answered m a)
              (λ _ _. Unit {0})
              (elim o [
                | ok a w ↦ ok a (record s { world = w })
                | fail e w ↦ fail (Failure.other e) (record s { world = w })
              ])
      go (ok a w) h = done (s.world, w, h)
      go (fail e w) h = failed tt

  pub guarded-Ends :
      {A : Type 0} {P : A → Type 0} (project : Text) (id : ℕ) (digest : Text) (m : Service p A)
      (s : ServiceState p.World)
      → Ends (λ a _. P a) (λ _ _. Unit {0}) (m s)
      → Ends (λ a _. P a) (λ _ _. Unit {0}) (guarded p project id digest m s)
  unfolding guarded
  guarded-Ends {A} {P} project id digest m s h = go h
    where
      go :
          {o : Outcome (ServiceState p.World) Failure A}
          → Ends (λ a _. P a) (λ _ _. Unit {0}) o
          → Ends {E = Failure} {A = A}
              (λ a _. P a)
              (λ _ _. Unit {0})
              (elim o [
                | ok a t ↦ ok a t
                | fail e t ↦ (do record_failure p project id digest e; throw e) t
              ])
      go (done h) = done h
      go (failed {e} {s = t} h) =
          then-Ends {R = λ _ _. Unit {0}} _ (Ends-const (record_failure p project id digest e t) tt)
            λ _ _ _. failed tt

  pub run_container-Answers :
      (id : ℕ) (x : Project) (s : ServiceState p.World)
      → Ends
          (λ digest _.
            p.has_docker ≡ true → Answered (p.recreate_container (container_spec x)) digest)
          (λ _ _. Unit {0})
          (run_container p id x s)
  unfolding run_container
  run_container-Answers id x s = by_docker p.has_docker refl
    where
      recreate : Service p Text
      recreate = do
        emit p x.id (codes "container") (codes "running")
        guarded p x.id id [] (part p (p.recreate_container (container_spec x)))

      recreated :
          (t : ServiceState p.World)
          → Ends
              (λ digest _.
                p.has_docker ≡ true → Answered (p.recreate_container (container_spec x)) digest)
              (λ _ _. Unit {0})
              (recreate t)
      recreated t =
          Ends-mono
            (guarded-Ends x.id id [] (part p (p.recreate_container (container_spec x)))
              (told p x id (codes "container") (codes "running") t)
              (part-Answers (p.recreate_container (container_spec x))
                (told p x id (codes "container") (codes "running") t)))
            (λ digest _ h _. h) (λ _ _ h. h)

      by_docker :
          (docker : Bool)
          → p.has_docker ≡ docker
          → Ends
              (λ digest _.
                p.has_docker ≡ true → Answered (p.recreate_container (container_spec x)) digest)
              (λ _ _. Unit {0})
              (if docker
                then (do emit p x.id (codes "pull") (codes "running"); pull p x.id id x; recreate) s
                else ok [] s)
      by_docker false e = done λ docker. absurd cc
      by_docker true e =
          then-Ends {R = λ _ _. Unit {0}} recreate
            (Ends-const (pull p x.id id x (told p x id (codes "pull") (codes "running") s)) tt)
            λ _ t _. recreated t

  -- The loop of the health check ends without an error only after an answer.
  health_loop-Answers :
      (n : ℕ) (x : Project) (url : Text) (timeout deadline attempt : ℕ) (s : ServiceState p.World)
      → Ends
          (λ _ _. Answered (p.check_http url (timeout * second)) tt)
          (λ _ _. Unit {0})
          (health_loop p n x.id url timeout deadline attempt s)
  unfolding health_loop
  health_loop-Answers zero x url timeout deadline attempt s = failed tt
  health_loop-Answers (suc n) x url timeout deadline attempt s =
      attempted (λ t. health_loop-Answers n x url timeout deadline (attempt + 1) t)
        (p.check_http url (timeout * second) s.world) refl
    where
      attempted :
          ((t : ServiceState p.World)
            → Ends
                (λ _ _. Answered (p.check_http url (timeout * second)) tt)
                (λ _ _. Unit {0})
                (health_loop p n x.id url timeout deadline (attempt + 1) t))
          → (r : Outcome p.World Text (Unit {0})) → p.check_http url (timeout * second) s.world ≡ r
          → Ends {E = Failure} {A = Unit {0}}
              (λ _ _. Answered (p.check_http url (timeout * second)) tt)
              (λ _ _. Unit {0})
              (elim r [
                | ok _ w ↦ ok tt (record s { world = w })
                | fail e w ↦
                    if leb deadline (p.now w)
                    then fail (Failure.unhealthy attempt (3 * timeout) e) (record s { world = w })
                    else (do
                      emit p x.id (codes "health-check") (codes "running")
                      part p (
                          p.wait (
                            if ltb (deadline - p.now w) second then deadline - p.now w else second))
                      health_loop p n x.id url timeout deadline (attempt + 1))
                        (record s { world = w })
              ])
      attempted again (ok tt w) h = done (s.world, w, h)
      attempted again (fail e w) h = elim (Bool-cases (leb deadline (p.now w))) [
        | inl late ↦ rw late (failed tt)
        | inr early ↦ rw early (
            then-Ends {R = λ _ _. Unit {0}}
              (health_loop p n x.id url timeout deadline (attempt + 1))
              (Ends-const
                (part p
                  (p.wait (if ltb (deadline - p.now w) second then deadline - p.now w else second))
                  (told p x 0 (codes "health-check") (codes "running") (record s { world = w })))
                tt)
              λ _ t _. again t)
      ]

  after_unhealthy-fails :
      (rollback : Text → Service p (Unit {0})) (x : Project) (pin : Text) (disabled : Bool)
      (e : Failure) (s : ServiceState p.World)
      → Ends (λ _ _. ⊥) (λ _ _. Unit {0}) (after_unhealthy p rollback x pin disabled e s)
  unfolding after_unhealthy
  after_unhealthy-fails rollback x pin disabled e s = elim (Bool-cases (is_empty pin || disabled)) [
    | inl stop ↦ rw stop (failed tt)
    | inr more ↦ rw more (rolled (rollback pin (told p x 0 (codes "rollback") (codes "running") s)))
  ]
    where
      rolled :
          (o : Outcome (ServiceState p.World) Failure (Unit {0}))
          → Ends {E = Failure} {A = Unit {0}}
              (λ _ _. ⊥)
              (λ _ _. Unit {0})
              (elim o [
                | ok _ t ↦ fail (Failure.rolled_back e) t
                | fail f t ↦ fail (Failure.rollback_failed e f) t
              ])
      rolled (ok _ t) = failed tt
      rolled (fail f t) = failed tt

  pub check_health-Answers :
      (rollback : Text → Service p (Unit {0})) (id : ℕ) (digest pin : Text) (x : Project)
      (disabled : Bool) (s : ServiceState p.World)
      → Ends
          (λ _ _. has_health_check x ≡ true → Answered (health_request x) tt)
          (λ _ _. Unit {0})
          (check_health p rollback id digest pin x disabled s)
  unfolding check_health wait_for_project_healthy
  check_health-Answers rollback id digest pin x disabled s =
      elim (Bool-cases (has_health_check x)) [
        | inr skip ↦ rw skip (done λ check. absurd cc)
        | inl check ↦ rw check (
            answered (
              health_loop-Answers _ x (p.health_url x) _ _ _
                (told p x id (codes "health-check") (codes "running") s)))
      ]
    where
      answered :
          {r : Outcome (ServiceState p.World) Failure (Unit {0})}
          → Ends (λ _ _. Answered (health_request x) tt) (λ _ _. Unit {0}) r
          → Ends {E = Failure} {A = Unit {0}}
              (λ _ _. true ≡ true → Answered (health_request x) tt)
              (λ _ _. Unit {0})
              (elim r [
                | ok _ t ↦ emit p x.id (codes "health-check") (codes "live") t
                | fail f t ↦
                    (do
                      record_failure p x.id id digest f
                      after_unhealthy p rollback x pin disabled f)
                      t
              ])
      answered (done h) = done λ _. h
      answered (failed {e} {s = t} h) =
          then-Ends {R = λ _ _. Unit {0}} _ (Ends-const (record_failure p x.id id digest e t) tt)
            λ _ u _.
              Ends-mono (after_unhealthy-fails rollback x pin disabled e u) (λ _ _ no. absurd no)
                (λ _ _ k. k)
