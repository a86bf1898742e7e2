-- ===== src/Projects/Deploy/Tests.antt =====
-- A web project, and parts whose world is the clock: the project's health check is refused before
-- two seconds have passed, and everything else is answered.
use caddytower.Prelude.{
  ℕ, ◌+◌, ◌*◌, ltb, ◌≡◌, refl, true, false, [], ◌∷◌, arith, inl, inr, find_first, exists, some, ◌≤◌,
  if◌then◌else◌, Bool-cases,
}
use caddytower.Prelude.Texts.{Text, codes, text_eq}
use caddytower.Prelude.Effects.{ok, fail, final, Ends, done, failed}
use caddytower.Store.Deploys.{DeployRecord}
use caddytower.Projects.{Project, Settings, DeployRequest, Parts, ServiceState, second}
use caddytower.Projects.Deploy.{apply_project, wait_for_project_healthy}
use caddytower.Projects.Deploy.Table.{Closed}
use caddytower.Projects.Deploy.Settled.{apply_project-settles}
use caddytower.Projects.Deploy.Live.{Deployed, apply_project-Deployed}
use caddytower.Projects.Deploy.Health.{IsClocked, IsAnswer, wait_for_project_healthy-stops}

abbrev site : Project
site = record {
  id = codes "p1";
  slug = codes "site";
  kind = codes "web";
  image_ref = codes "ghcr.io/a/site:1";
  internal_port = 80;
  full_domain = codes "site.dev";
  custom_domains = [];
  watchtower_enabled = true;
  env = (codes "A", codes "1") ∷ [];
  db_attachments = [];
  mounts = [];
  ports = [];
  http_routes = [];
  container_name = codes "caddytower-site";
  health_check_path = codes "/up";
  health_check_timeout = 1;
}

abbrev settings : Settings
settings = record {
  root_domain = codes "dev";
  origin_hostname = [];
  cloudflare_zone_id = [];
  cloudflare_proxied = false;
}

abbrev request : DeployRequest
request = record { trigger = codes "update"; actor = codes "u1"; disable_auto_rollback = false }

abbrev host : Parts
host = record {
  World = ℕ;
  has_docker = true;
  pull_image = λ _ w. ok tt w;
  recreate_container = λ _ w. ok (codes "sha256:2") w;
  check_http = λ _ _ w. if ltb w (2 * second) then fail (codes "refused") w else ok tt w;
  now = λ w. w;
  wait = λ d w. ok tt (w + d);
  reconcile_caddy = λ w. ok tt w;
  upsert_cloudflare = λ _ _ w. ok tt w;
  get_project = λ _ w. ok (site, settings) w;
  set_image_ref = λ _ _ w. ok tt w;
  health_url = λ _. codes "http://caddytower-site:80/up";
  message = λ _. codes "failed";
}

abbrev earlier : DeployRecord
earlier = record {
  id = 1;
  project_id = codes "p1";
  image_digest = codes "sha256:1";
  image_ref = codes "ghcr.io/a/site:0";
  status = codes "live";
  trigger = codes "create";
  actor = [];
  started_at = 5;
  finished_at = some 6;
  error = [];
}

abbrev start : ServiceState ℕ
start = record {
  table = record {
    rows = earlier ∷ [];
    next_id = 2;
    has_project = λ _. true;
    clock = 9;
    fails = λ _. false;
    executed = 0;
  };
  events = [];
  world = 0;
}

start-Closed : Closed start.table
unfolding text_eq
start-Closed = (λ n. refl, (refl, tt))

host-IsClocked : IsClocked host
host-IsClocked = record {
  check-now = λ url timeout w. checked w;
  wait-now = λ d w. done (omega arith);
}
  where
    checked :
        (w : ℕ)
        → Ends {E = Text} {A = Unit {0}}
            (λ _ w'. w ≤ w')
            (λ _ w'. w ≤ w')
            (if ltb w (2 * second) then fail (codes "refused") w else ok tt w)
    checked w = elim (Bool-cases (ltb w (2 * second))) [
      | inl e ↦ rw e (failed (omega arith))
      | inr e ↦ rw e (done (omega arith))
    ]

apply_project-settles_example :
    Ends
      (λ _ t. Closed t.table)
      (λ _ t. Closed t.table)
      (apply_project host site settings request start)
apply_project-settles_example = apply_project-settles host site settings request start start-Closed

abbrev deployed : ServiceState ℕ
deployed = final (apply_project host site settings request start)

deployed-ok : apply_project host site settings request start ≡ ok tt deployed
unfolding apply_project find_first exists
deployed-ok = refl

apply_project-Deployed_example : Deployed host site settings deployed
apply_project-Deployed_example =
    apply_project-Deployed host site settings request start deployed deployed-ok

wait_for_project_healthy-stops_example :
    Ends (λ _ _. Unit {0}) (λ e _. IsAnswer e) (wait_for_project_healthy host site start)
wait_for_project_healthy-stops_example =
    wait_for_project_healthy-stops host host-IsClocked site start
