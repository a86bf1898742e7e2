-- ===== src/Projects/Deploy/Live.antt =====
-- What a successful deployment has done (`applyProject`, internal/projects/service.go).
use caddytower.Prelude.{
  or_true, ℕ, ◌≡◌, refl, inl, inr, Bool, true, ◌&&◌, List, [], ◌∷◌, exists, update_where, is_empty,
  arith, Bool-cases, ◌==◌, &&-true,
}
use caddytower.Prelude.Texts.{Text, codes, text_eq, text_eq_refl, trim_space}
use caddytower.Prelude.Effects.{
  Outcome, ok, fail, Ends, done, failed, bind-Ends, then-Ends, Ends-mono, Ends-const, Ends-ok,
}
use caddytower.Store.Auth.{StoreError}
use caddytower.Store.Deploys.{
  DeployRecord, DeployTable, execute, is_deploy, start_project_deploy, finish_project_deploy,
  finish_row,
}
use caddytower.Projects.{
  Project, Settings, DeployRequest, container_spec, Failure, Parts, ServiceState, container_spec,
  is_web, fallback_string,
}
use caddytower.Projects.Deploy.{
  Service, stored, part, find_pin, carry_out, apply_with, auto_rollback_project, apply_project,
}
use caddytower.Projects.Deploy.Steps.{told}
use caddytower.Projects.Deploy.Answers.{
  Answered, has_health_check, health_request, part-Answers, guarded-Ends, run_container-Answers,
  check_health-Answers,
}

module _ (p : Parts) where
  abbrev pub is_live : Text → ℕ → Text → DeployRecord → Bool
  is_live project id digest r =
      is_deploy project id r && text_eq r.status (codes "live") && text_eq r.image_digest digest

  -- A row of the project has the status `live` and the digest of the image in the container, which
  -- Docker has recreated, where there is Docker; the health check, where there is one, Caddy and
  -- Cloudflare have answered without an error.
  abbrev pub Deployed : Project → Settings → ServiceState p.World → Type 0
  Deployed x settings t =
      (id : ℕ) × (digest : Text) × (exists (is_live x.id id digest) t.table.rows ≡ true)
      × (p.has_docker ≡ true → Answered p (p.recreate_container (container_spec x)) digest)
      × (has_health_check p x ≡ true → Answered p (health_request p x) tt)
      × Answered p p.reconcile_caddy tt
      × Answered p (p.upsert_cloudflare x settings) tt

  live_rows :
      (project : Text) (id : ℕ) (digest : Text) (at : ℕ) (rows : List DeployRecord)
      → exists (is_deploy project id) rows ≡ true
      → exists
          (is_live project id digest)
          (update_where (is_deploy project id) (finish_row (codes "live") digest [] at) rows)
        ≡ true
  unfolding exists update_where text_eq
  live_rows project id digest at [] h = h
  live_rows project id digest at (r ∷ rs) h = elim (Bool-cases (is_deploy project id r)) [
    | inl e ↦
        let q = &&-true (text_eq r.project_id project) (r.id == id) e in
        rw (e, text_eq_refl digest, q.0, q.1) refl
    | inr e ↦ rw e (or_true _ _ (live_rows project id digest at rs (ground arith)))
  ]

  finish-Live :
      (project : Text) (id : ℕ) (digest : Text) (d : DeployTable)
      → Ends
          (λ _ t. exists (is_live project id digest) t.rows ≡ true)
          (λ _ _. Unit {0})
          (finish_project_deploy project id (codes "live") digest [] d)
  unfolding finish_project_deploy
  finish-Live project id digest d =
      then-Ends {R = λ _ _. Unit {0}} _ (Ends-const (execute d) tt) λ _ t _.
        elim (Bool-cases (exists (is_deploy project id) t.rows)) [
          | inl e ↦ rw e (done (live_rows project id digest t.clock t.rows e))
          | inr e ↦ rw e (failed tt)
        ]

  carry_out-Deploys :
      (rollback : Text → Service p (Unit {0})) (id : ℕ) (x : Project) (settings : Settings)
      (disabled : Bool) (s : ServiceState p.World)
      → Ends
          (λ _ t. Deployed x settings t)
          (λ _ _. Unit {0})
          (carry_out p rollback id x settings disabled s)
  unfolding carry_out
  carry_out-Deploys rollback id x settings disabled s =
      bind-Ends {R = λ _ _. Unit {0}} (Ends-const (find_pin p x.id id disabled s) tt) λ pin s1 _.
        bind-Ends (run_container-Answers p id x (told p x id (codes "queued") (codes "running") s1))
          λ digest s2 docker.
            then-Ends _ (check_health-Answers p rollback id digest pin x disabled s2) λ _ s3 health.
              let s4 = told p x id (codes "routing") (codes "running") s3 in
              then-Ends _
                (guarded-Ends p {P = λ _. Answered p p.reconcile_caddy tt} x.id id digest
                  (part p p.reconcile_caddy) s4
                  (Ends-mono (part-Answers p p.reconcile_caddy s4) (λ _ _ h. h) (λ _ _ h. h)))
                λ _ s5 caddy.
                  let s6 = told p x id (codes "dns") (codes "running") s5 in
                  then-Ends _
                    (guarded-Ends p {P = λ _. Answered p (p.upsert_cloudflare x settings) tt} x.id
                      id digest (part p (p.upsert_cloudflare x settings)) s6
                      (Ends-mono (part-Answers p (p.upsert_cloudflare x settings) s6) (λ _ _ h. h)
                        (λ _ _ h. h)))
                    λ _ s7 dns.
                      let s8 = told p x id (codes "live") (codes "live") s7 in
                      finished s8 (finish-Live x.id id digest s8.table) docker health caddy dns
    where
      finished :
          (t : ServiceState p.World) {digest : Text} {o : Outcome DeployTable StoreError (Unit {0})}
          → Ends (λ _ d. exists (is_live x.id id digest) d.rows ≡ true) (λ _ _. Unit {0}) o
          → (p.has_docker ≡ true → Answered p (p.recreate_container (container_spec x)) digest)
          → (has_health_check p x ≡ true → Answered p (health_request p x) tt)
          → Answered p p.reconcile_caddy tt
          → Answered p (p.upsert_cloudflare x settings) tt
          → Ends {E = Failure} {A = Unit {0}}
              (λ _ u. Deployed x settings u)
              (λ _ _. Unit {0})
              (elim o [
                | ok a d ↦ ok a (record t { table = d })
                | fail e d ↦ fail (Failure.store e) (record t { table = d })
              ])
      finished t {digest} (done h) docker health caddy dns =
          done (id, digest, h, docker, health, caddy, dns)
      finished t (failed h) docker health caddy dns = failed tt

  -- A deployment that succeeds leaves a row of the project with the status `live` and the digest of
  -- the image in the container. Docker has recreated the container from the project's specification,
  -- where there is Docker, the health check has been answered, where there is one, and Caddy and
  -- Cloudflare have answered without an error.
  pub apply_project-Deployed :
      (x : Project) (settings : Settings) (request : DeployRequest) (s t : ServiceState p.World)
      → apply_project p x settings request s ≡ ok tt t
      → Deployed x settings t
  unfolding apply_project apply_with
  apply_project-Deployed x settings request s t h =
      Ends-ok {P = λ _ u. Deployed x settings u} {Q = λ _ _. Unit {0}} applied h
    where
      applied :
          Ends
            (λ _ u. Deployed x settings u)
            (λ _ _. Unit {0})
            (apply_project p x settings request s)
      applied = elim (Bool-cases (is_web x && is_empty settings.root_domain)) [
        | inl bare ↦ rw bare (failed tt)
        | inr fine ↦ rw fine (
            bind-Ends {R = λ _ _. Unit {0}}
              (Ends-const
                (stored p
                  (start_project_deploy x.id x.image_ref
                    (fallback_string request.trigger (codes "deploy")) (trim_space request.actor))
                  s)
                tt)
              λ r u _.
                carry_out-Deploys (auto_rollback_project p x.id) r.id x settings
                  request.disable_auto_rollback u)
      ]
