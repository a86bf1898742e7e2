-- ===== src/Lib.antt =====
-- A model of CaddyTower, a controller that deploys Docker containers and routes to them with a shared
-- Caddy server, and the theorems about it.
--
-- The parts of the program and the files that model them:
-- - internal/secrets/secrets.go: Secrets.antt. `EncryptString` and `DecryptString` over parameters for
--   base64 and AES-GCM (`Crypto`); the nonce that an encryption draws is an argument.
-- - internal/store/auth.go: Store/Auth.antt. The tables of accounts, sessions and audit entries are
--   lists; every method is the sequence of its statements. `fails` says which statement, counted from
--   the start, the database refuses.
-- - internal/auth/service.go: Auth.antt (state and helpers), Auth/Operations.antt (`CreateInitialUser`,
--   `Login`, `Authenticate`, `Logout`), over the tables and the secrets. Bcrypt, TOTP, SHA-256, UUIDs and
--   random tokens are parameters (`Library`); what is drawn is numbered by `drawn`.
-- - internal/server/middleware.go: RateLimit.antt, the limiter of the webhook endpoint.
-- - internal/caddyadmin/service.go: Caddy.antt (`BuildConfig`, route keys and their order),
--   Caddy/Merge.antt (`MergeManagedRoutes` over decoded JSON, Json.antt), Caddy/Extract.antt
--   (`ExtractHTTPRoutes`), Caddy/Client.antt (`ReconcileManagedRoutes` and the outer part of
--   `MergeManagedRoutes`, on the text of a configuration, over a parameter for the admin API and one for
--   `encoding/json`; a request that fails and a response that cannot be read are one error).
-- - internal/store/project_page.go: Store/Deploys.antt, the table `project_deploys`, and
--   Store/Domains.antt, the table `project_domains` with its transaction.
-- - internal/projects/service.go: Projects.antt and Projects/Deploy.antt, `applyProject` with the
--   automatic rollback and the health check. Docker, the HTTP client, the clock, Caddy, Cloudflare and
--   the tables of projects and settings are called through the record `Parts`.
-- - internal/projects/service.go: Projects/Routes.antt, the hosts and routes of a project and
--   `reconcileCaddy` on top of Caddy/Client.antt, for given settings, projects and port of the
--   controller.
-- - internal/projects/service.go: Projects/Ports.antt, `parsePortMappings` with `strconv.Atoi`.
-- - internal/projects/service.go: Projects/Inputs.antt (the texts of mounts and route rules and what
--   they print as), Projects/Inputs/Env.antt (the environment and its sealed values, over Secrets.antt)
--   and Projects/Inputs/Form.antt (`recordFromInput`). A map is a list of pairs, and the order in which
--   values are sealed is that of the list.
-- - internal/cloudflare/service.go: Cloudflare.antt, the records of a host in a zone, over a parameter
--   for the API (`DnsApi`, with what its documentation says of it in `IsDnsApi`: a listing answers one
--   page) and one for what `net.ParseIP` says of a target.
-- - internal/server/controller_update.go: Releases.antt, the versions of releases and their order.
-- - internal/config/config.go: Config.antt, `LoadFromLookup` over parameters for `url.Parse` and
--   `net.ParseIP`.
-- - internal/dockerx/service.go: Docker.antt, `RecreateContainer` and the other calls that change
--   containers and networks, over a parameter for the API (`Api`, with what its documentation says of
--   it in `IsDocker`, Docker/Documented.antt).
-- - internal/monitor/service.go: Monitor.antt, the readings of memory and disk and `checkAndNotify`; a
--   check is given what the machine, the clock and the mail server answer (`Tick`).
-- - internal/backups/service.go: Backups.antt, the archives in the backup directory, `RunNow`, the
--   retention and the schedule; what the operating system and the dumps answer is an argument.
--
-- Conventions:
-- - Text is a list of code points; white space and letter case are those of ASCII, and `len` counts
--   bytes of UTF-8 (Prelude/Texts.antt).
-- - Times and durations are nanoseconds in ℕ; a request reads the clock once, but the health check
--   reads it again at every attempt, and the monitor and a backup run are given each reading. Go's maps
--   are functions or lists of pairs, and `sort.Slice` is an insertion sort by the same `less`.
-- - A Go function that returns an error is a function of the state into `Outcome`
--   (Prelude/Effects.antt): a failure keeps the changes made before it.
-- - The loop of `waitForProjectHealthy` runs on fuel, one attempt more than the seconds in its window:
--   every wait lasts a second or reaches the deadline. The automatic rollback disables the next one, so
--   it is one call deep and needs no fuel.
-- - Digits are printed on fuel, of which the number itself is enough.
-- - The text of deployment events is left out, their stage and status are kept.
--
-- Not modelled: the HTTP handlers and templates, the controller's update of itself, the tables of
-- projects, settings and attachments with the operations on them, the import of containers, the HTTP calls of the
-- Docker, GitHub and Cloudflare APIs, the database engines and the commands; of the backups, the loop and
-- the bytes of an archive; of the monitor, its timer and the headers of a mail; of Docker, pulling,
-- running commands in containers, logs and CPU statistics. These are calls of other programs and
-- libraries, or statements on tables like those that are modelled.
pub mod Prelude
pub mod Secrets
pub mod Store
pub mod Auth
pub mod RateLimit
pub mod Json
pub mod Caddy
pub mod Projects
pub mod Cloudflare
pub mod Releases
pub mod Monitor
pub mod Config
pub mod Backups
pub mod Docker
