-- ===== src/Projects/Deploy/Health.antt =====
-- The health check ends (`waitForProjectHealthy`, internal/projects/service.go).
use caddytower.Prelude.{
  ℕ, zero, suc, ◌≤◌, ◌<◌, ◌+◌, ◌≡◌, inl, inr, arith, Bool-cases, leb, ltb, ◌-◌, ◌*◌, if◌then◌else◌,
}
use caddytower.Prelude.Texts.{Text, codes}
use caddytower.Prelude.Effects.{Outcome, ok, fail, Ends, done, failed, then-Ends, ◌>>◌}
use caddytower.Projects.{Project, normalized_health_timeout, Failure, Parts, ServiceState, second}
use caddytower.Projects.Deploy.{part, emit, health_loop, wait_for_project_healthy}
use caddytower.Projects.Deploy.Steps.{told}
use caddytower.Projects.Deploy.Steps.{told}
use mathlib.Core.Path.{subst}

-- A request does not turn the clock back, and a wait that is not cancelled lasts.
pub record IsClocked (p : Parts) : Type 0 where
  pub check-now :
      (url : Text) (timeout : ℕ) (w : p.World)
      → Ends (λ _ w'. p.now w ≤ p.now w') (λ _ w'. p.now w ≤ p.now w') (p.check_http url timeout w)
  pub wait-now :
      (d : ℕ) (w : p.World) → Ends (λ _ w'. p.now w + d ≤ p.now w') (λ _ _. Unit {0}) (p.wait d w)

-- An error of the source, not the end of the fuel.
abbrev pub IsAnswer : Failure → Type 0
IsAnswer Failure.out_of_attempts = ⊥
IsAnswer _ = Unit

module _ (p : Parts) (clocked : IsClocked p) where
  abbrev Stops : Outcome (ServiceState p.World) Failure (Unit {0}) → Type 0
  Stops = Ends (λ _ _. Unit {0}) (λ e _. IsAnswer e)

  -- How long the loop waits at a time before the deadline.
  abbrev pause : ℕ → ℕ → ℕ
  pause deadline at = if ltb (deadline - at) second then deadline - at else second

  waited-Ends :
      (d : ℕ) (w : p.World) (s : ServiceState p.World) {o : Outcome p.World Text (Unit {0})}
      → Ends (λ _ w'. p.now w + d ≤ p.now w') (λ _ _. Unit {0}) o
      → Ends {A = Unit {0}}
          (λ _ t. p.now w + d ≤ p.now t.world)
          (λ e _. IsAnswer e)
          (elim o [
            | ok a w' ↦ ok a (record s { world = w' })
            | fail e w' ↦ fail (Failure.other e) (record s { world = w' })
          ])
  waited-Ends d w s (done h) = done h
  waited-Ends d w s (failed h) = failed tt

  attempt-Stops :
      (n : ℕ) (x : Project) (url : Text) (timeout deadline attempt : ℕ) (s : ServiceState p.World)
      → ((w : p.World) (t : ServiceState p.World)
          → p.now s.world ≤ p.now w
          → p.now w < deadline
          → p.now w + pause deadline (p.now w) ≤ p.now t.world
          → Stops (health_loop p n x.id url timeout deadline (attempt + 1) t))
      → Stops (health_loop p (suc n) x.id url timeout deadline attempt s)
  unfolding health_loop
  attempt-Stops n x url timeout deadline attempt s again =
      attempted (p.check_http url (timeout * second) s.world)
        (clocked.check-now url (timeout * second) s.world)
    where
      attempted :
          (r : Outcome p.World Text (Unit {0}))
          → Ends (λ _ w'. p.now s.world ≤ p.now w') (λ _ w'. p.now s.world ≤ p.now w') r
          → Stops (elim r [
            | ok _ w ↦ ok tt (record s { world = w })
            | fail e w ↦
                if leb deadline (p.now w)
                then fail (Failure.unhealthy attempt (3 * timeout) e) (record s { world = w })
                else (do
                  emit p x.id (codes "health-check") (codes "running")
                  part p (p.wait (pause deadline (p.now w)))
                  health_loop p n x.id url timeout deadline (attempt + 1))
                    (record s { world = w })
          ])
      attempted (ok tt w) h = done tt
      attempted (fail e w) (failed h) = elim (Bool-cases (leb deadline (p.now w))) [
        | inl late ↦ rw late (failed tt)
        | inr early ↦ rw early (
            then-Ends {R = λ _ t. p.now w + pause deadline (p.now w) ≤ p.now t.world}
              (health_loop p n x.id url timeout deadline (attempt + 1))
              (waited-Ends (pause deadline (p.now w)) w
                (told p x 0 (codes "health-check") (codes "running") (record s { world = w }))
                (clocked.wait-now (pause deadline (p.now w)) w))
              λ _ t later. again w t h (ground arith) later)
      ]

  health_loop-Stops :
      (n : ℕ) (x : Project) (url : Text) (timeout deadline attempt : ℕ) (s : ServiceState p.World)
      → deadline ≤ p.now s.world + n * second
      → Stops (health_loop p (suc n) x.id url timeout deadline attempt s)
  health_loop-Stops zero x url timeout deadline attempt s fuel =
      attempt-Stops zero x url timeout deadline attempt s
        λ w t after early later. absurd (omega arith)
  health_loop-Stops (suc n) x url timeout deadline attempt s fuel =
      attempt-Stops (suc n) x url timeout deadline attempt s λ w t after early later.
        health_loop-Stops n x url timeout deadline (attempt + 1) t (ground arith)

  -- The health check of every project ends with an answer or with an error of the source, and never
  -- for lack of fuel, if requests do not turn the clock back and a wait lasts as long as it should.
  pub wait_for_project_healthy-stops :
      (x : Project) (s : ServiceState p.World)
      → Ends (λ _ _. Unit {0}) (λ e _. IsAnswer e) (wait_for_project_healthy p x s)
  unfolding wait_for_project_healthy
  wait_for_project_healthy-stops x s =
      let timeout = normalized_health_timeout x.health_check_path x.health_check_timeout in
      let fuel : suc (3 * timeout) ≡ 3 * timeout + 1 = omega arith in
      subst
        (λ (n : ℕ). Stops (
          health_loop p n x.id (p.health_url x) timeout (p.now s.world + 3 * timeout * second) 1 s))
        fuel
        (health_loop-Stops (3 * timeout) x (p.health_url x) timeout
          (p.now s.world + 3 * timeout * second) 1 s (omega arith))
