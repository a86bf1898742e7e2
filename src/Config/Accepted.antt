-- ===== src/Config/Accepted.antt =====
-- The configurations that `LoadFromLookup` accepts (internal/config/config.go).
use caddytower.Prelude.{
  ℕ, ◌≤◌, ◌≡◌, refl, ◌⊎◌, inl, inr, Bool, true, false, not, ◌&&◌, Option, none, some, List, [], ◌∷◌,
  is_empty, exists, ltb, Bool-cases, arith,
}
use caddytower.Prelude.Int.{ℤ, pos, negsuc, ltb_ℤ}
use caddytower.Prelude.Decimal.{atoi, format_int}
use caddytower.Prelude.Results.{
  Result, value, error, Holds, held, erred, bind-Holds, then-Holds, Holds-mono, Holds-value,
}
use caddytower.Prelude.Texts.{Text, codes, text_eq, text_eq_iff, trim_space, split}
use caddytower.Caddy.{is_blank}
use caddytower.Config.{
  Config, Reason, ConfigError, Url, Net, Lookup, check, with_url, is_complete, validate_url,
  is_local_host, exposed, validate_public_exposure, is_set, validate_github_app_config,
  github_configured, within, clock_parts, validate_clock, validate_percent, at_least_1, validate,
  validate_tail, env_int_or_default, env_bool_or_default, configuration, load_from_lookup,
  clock_format,
}

check-Holds : (b : Bool) (key : Text) (r : Reason) → Holds (λ _. b ≡ true) (check b key r)
check-Holds true key r = held refl
check-Holds false key r = erred

-- A number that is at least `low`.
abbrev pub AtLeast : ℕ → ℤ → Type 0
AtLeast low z = (n : ℕ) × (z ≡ pos n) × (low ≤ n)

abbrev pub Between : ℕ → ℕ → ℤ → Type 0
Between low high z = (n : ℕ) × (z ≡ pos n) × (low ≤ n) × (n ≤ high)

abbrev pub IsUrl : Net → Text → Type 0
IsUrl net raw = (u : Url) × (net.parse_url raw ≡ some u) × (is_complete u ≡ true)

-- The URL is for this host, or it is for HTTPS and there is a master key.
abbrev pub Guarded : Net → Text → Text → Type 0
Guarded net raw master_key =
    (u : Url) × (net.parse_url raw ≡ some u)
    × ((is_local_host net u.hostname ≡ true)
        ⊎ ((u.scheme ≡ codes "https") × (is_blank master_key ≡ false)))

-- GitHub is configured in full, or none of its texts is given.
abbrev pub IsGithub : Config → Type 0
IsGithub c =
    (github_configured c ≡ true)
    ⊎ ((is_set c.github_app_slug ≡ false)
        × (is_set c.github_app_private_key_path ≡ false)
        × (is_set c.github_webhook_secret ≡ false))

-- An hour and a minute.
abbrev pub IsClock : Text → Type 0
IsClock raw =
    (hour : Text) × (minute : Text) × (split b':' (trim_space raw) ≡ hour ∷ minute ∷ [])
    × ((h : ℕ) × (atoi hour ≡ some (pos h)) × (h ≤ 23))
    × ((m : ℕ) × (atoi minute ≡ some (pos m)) × (m ≤ 59))

pub record IsValid (net : Net) (c : Config) : Type 0 where
  pub address : is_blank c.http_addr ≡ false
  pub public_url : IsUrl net c.public_base_url
  pub exposure : Guarded net c.public_base_url c.master_key
  pub caddy_url : IsUrl net c.caddy_admin_url
  pub api_url : IsUrl net c.github_api_base_url
  pub web_url : IsUrl net c.github_web_base_url
  pub github : IsGithub c
  pub retention : AtLeast 1 c.backups_retention_days
  pub schedule : IsClock c.backups_schedule_utc
  pub ram_percent : Between 1 99 c.vps_ram_free_warn_percent
  pub disk_percent : Between 1 99 c.vps_disk_free_warn_percent
  pub interval : AtLeast 1 c.vps_warning_check_minutes
  pub cooldown : AtLeast 1 c.vps_warning_cooldown_minutes
  pub port : Between 1 65535 c.smtp_port

validate_url-Holds :
    (net : Net) (key raw : Text) → Holds (λ _. IsUrl net raw) (validate_url net key raw)
unfolding validate_url
validate_url-Holds net key raw = go (net.parse_url raw) refl
  where
    go :
        (o : Option Url)
        → net.parse_url raw ≡ o
        → Holds {E = ConfigError} {A = Unit {0}}
            (λ _. IsUrl net raw)
            (with_url key o (λ u. check (is_complete u) key Reason.scheme_and_host))
    go none e = erred
    go (some u) e = elim (Bool-cases (is_complete u)) [
      | inl k ↦ rw k (held (u, e, k))
      | inr k ↦ rw k erred
    ]

exposed-Holds :
    (net : Net) (key : Text) (u : Url)
    → Holds {A = Unit {0}}
        (λ _.
          (is_local_host net u.hostname ≡ true)
          ⊎ ((u.scheme ≡ codes "https") × (is_blank key ≡ false)))
        (exposed net key u)
unfolding text_eq
exposed-Holds net key u = elim (Bool-cases (is_local_host net u.hostname)) [
  | inl e ↦ rw e (held (inl refl))
  | inr e ↦ rw e (
      then-Holds (check-Holds (text_eq u.scheme (codes "https")) _ _) (λ s.
        elim (Bool-cases (is_blank key)) [
          | inl k ↦ rw k erred
          | inr k ↦ rw k (held (inr ((text_eq_iff u.scheme (codes "https")).0 s, refl)))
        ]))
]

exposure-Holds :
    (net : Net) (raw key : Text)
    → Holds {A = Unit {0}} (λ _. Guarded net raw key) (validate_public_exposure net raw key)
unfolding validate_public_exposure
exposure-Holds net raw key = go (net.parse_url raw) refl
  where
    lift :
        (u : Url) (r : Result ConfigError (Unit {0}))
        → net.parse_url raw ≡ some u
        → Holds {A = Unit {0}}
            (λ _.
              (is_local_host net u.hostname ≡ true)
              ⊎ ((u.scheme ≡ codes "https") × (is_blank key ≡ false)))
            r
        → Holds {A = Unit {0}} (λ _. Guarded net raw key) r
    lift u r e (held h) = held (u, e, h)
    lift u r e erred = erred

    go :
        (o : Option Url)
        → net.parse_url raw ≡ o
        → Holds {E = ConfigError} {A = Unit {0}}
            (λ _. Guarded net raw key)
            (with_url (codes "CADDYTOWER_PUBLIC_BASE_URL") o (exposed net key))
    go none e = erred
    go (some u) e = lift u _ e (exposed-Holds net key u)

between_within :
    (low high : ℕ) (o : Option ℤ)
    → within (pos low) (pos high) o ≡ true
    → (n : ℕ) × (o ≡ some (pos n)) × (low ≤ n) × (n ≤ high)
between_within low high none h = absurd cc
between_within low high (some (pos n)) h = (n, refl, ground arith, ground arith)
between_within low high (some (negsuc n)) h = absurd cc

within-Holds :
    (low high : ℕ) (o : Option ℤ) (key : Text) (r : Reason)
    → Holds {A = Unit {0}}
        (λ _. (n : ℕ) × (o ≡ some (pos n)) × (low ≤ n) × (n ≤ high))
        (check (within (pos low) (pos high) o) key r)
within-Holds low high o key r = elim (Bool-cases (within (pos low) (pos high) o)) [
  | inl e ↦ rw e (held (between_within low high o e))
  | inr e ↦ rw e erred
]

range-Holds :
    (low high : ℕ) (z : ℤ) (key : Text) (r : Reason)
    → Holds {A = Unit {0}}
        (λ _. Between low high z)
        (check (within (pos low) (pos high) (some z)) key r)
range-Holds low high (pos n) key r =
    elim (Bool-cases (within (pos low) (pos high) (some (pos n)))) [
      | inl e ↦ rw e (held (n, refl, ground arith, ground arith))
      | inr e ↦ rw e erred
    ]
range-Holds low high (negsuc n) key r = erred

at_least_1-Holds : (key : Text) (z : ℤ) → Holds {A = Unit {0}} (λ _. AtLeast 1 z) (at_least_1 key z)
at_least_1-Holds key (pos n) = elim (Bool-cases (ltb n 1)) [
  | inl e ↦ rw e erred
  | inr e ↦ rw e (held (n, refl, ground arith))
]
at_least_1-Holds key (negsuc n) = erred

clock_parts-Holds :
    (key : Text) (parts : List Text)
    → Holds {A = Unit {0}}
        (λ _.
          (hour : Text) × (minute : Text) × (parts ≡ hour ∷ minute ∷ [])
          × ((h : ℕ) × (atoi hour ≡ some (pos h)) × (h ≤ 23))
          × ((m : ℕ) × (atoi minute ≡ some (pos m)) × (m ≤ 59)))
        (clock_parts key parts)
clock_parts-Holds key [] = erred
clock_parts-Holds key (a ∷ []) = erred
clock_parts-Holds key (a ∷ b ∷ c ∷ d) = erred
clock_parts-Holds key (a ∷ b ∷ []) = then-Holds (within-Holds 0 23 (atoi a) key clock_format) (λ h.
    Holds-mono (within-Holds 0 59 (atoi b) key clock_format)
      (λ _ m. (a, b, refl, (h.0, h.1, h.3), (m.0, m.1, m.3))))

validate_clock-Holds :
    (key raw : Text) → Holds {A = Unit {0}} (λ _. IsClock raw) (validate_clock key raw)
unfolding validate_clock
validate_clock-Holds key raw = clock_parts-Holds key (split b':' (trim_space raw))

set_all : (a b c d : Bool) → a ≡ true → b ≡ true → c ≡ true → d ≡ true → (a && b && c && d) ≡ true
set_all a b c d p q r t = rw (p, q, r, t) refl

app_settings-Holds :
    (c : Config) → Holds {A = Unit {0}} (λ _. IsGithub c) (validate_github_app_config c)
unfolding validate_github_app_config github_configured exists
app_settings-Holds c =
    elim (Bool-cases (
      exists is_set (
        format_int c.github_app_id
        ∷ c.github_app_slug
        ∷ c.github_app_private_key_path
        ∷ c.github_webhook_secret
        ∷ []))) [
          | inr e ↦ rw e (held (inr (ground arith, ground arith, ground arith)))
          | inl e ↦ rw e (
              then-Holds (check-Holds (ltb_ℤ (pos 0) c.github_app_id) _ _) (λ a.
                then-Holds (check-Holds (not (is_empty c.github_app_slug)) _ _) (λ b.
                  then-Holds (check-Holds (not (is_empty c.github_app_private_key_path)) _ _) (λ p.
                    Holds-mono (check-Holds (not (is_empty c.github_webhook_secret)) _ _)
                      (λ _ s. inl (set_all _ _ _ _ a b p s))))))
        ]

-- The checks of the backups, the monitor and the mail server.
tail-Holds :
    (net : Net) (c : Config)
    → ((days : AtLeast 1 c.backups_retention_days) (clock : IsClock c.backups_schedule_utc)
          (ram : Between 1 99 c.vps_ram_free_warn_percent)
          (disk : Between 1 99 c.vps_disk_free_warn_percent)
          (minutes : AtLeast 1 c.vps_warning_check_minutes)
          (cooldown : AtLeast 1 c.vps_warning_cooldown_minutes) (port : Between 1 65535 c.smtp_port)
        → IsValid net c)
    → Holds (IsValid net) (validate_tail c)
unfolding validate_tail validate_percent
tail-Holds net c all_hold = then-Holds (at_least_1-Holds _ c.backups_retention_days) λ days.
    then-Holds (validate_clock-Holds _ c.backups_schedule_utc) λ clock.
      then-Holds (range-Holds 1 99 c.vps_ram_free_warn_percent _ _) λ ram.
        then-Holds (range-Holds 1 99 c.vps_disk_free_warn_percent _ _) λ disk.
          then-Holds (at_least_1-Holds _ c.vps_warning_check_minutes) λ minutes.
            then-Holds (at_least_1-Holds _ c.vps_warning_cooldown_minutes) λ cooldown.
              then-Holds (range-Holds 1 65535 c.smtp_port _ _)
                λ port. held (all_hold days clock ram disk minutes cooldown port)

validate-Holds : (net : Net) (c : Config) → Holds (IsValid net) (validate net c)
unfolding validate
validate-Holds net c = then-Holds (check-Holds (not (is_blank c.http_addr)) _ _) λ addressed.
    then-Holds (validate_url-Holds net _ c.public_base_url) λ public.
      then-Holds (exposure-Holds net c.public_base_url c.master_key) λ exposure.
        then-Holds (validate_url-Holds net _ c.caddy_admin_url) λ caddy.
          then-Holds (validate_url-Holds net _ c.github_api_base_url) λ api.
            then-Holds (validate_url-Holds net _ c.github_web_base_url) λ web.
              then-Holds (app_settings-Holds c) λ github.
                tail-Holds net c λ days clock ram disk minutes cooldown port. record {
                  address = ground arith;
                  public_url = public;
                  exposure = exposure;
                  caddy_url = caddy;
                  api_url = api;
                  web_url = web;
                  github = github;
                  retention = days;
                  schedule = clock;
                  ram_percent = ram;
                  disk_percent = disk;
                  interval = minutes;
                  cooldown = cooldown;
                  port = port;
                }

any_value : {A : Type 0} (r : Result ConfigError A) → Holds (λ _. Unit {0}) r
any_value (value a) = held tt
any_value (error e) = erred

module _ (lookup : Lookup) where
  int_read : (key : Text) (d : ℤ) → Holds (λ _. Unit {0}) (env_int_or_default lookup key d)
  int_read key d = any_value (env_int_or_default lookup key d)

  bool_read : (key : Text) (d : Bool) → Holds (λ _. Unit {0}) (env_bool_or_default lookup key d)
  bool_read key d = any_value (env_bool_or_default lookup key d)

  load-Holds : (net : Net) → Holds (IsValid net) (load_from_lookup net lookup)
  unfolding load_from_lookup
  load-Holds net = bind-Holds (int_read _ _) λ app _. bind-Holds (bool_read _ _) λ backups _.
      bind-Holds (bool_read _ _) λ dumps _. bind-Holds (int_read _ _) λ days _.
        bind-Holds (bool_read _ _) λ warn _. bind-Holds (int_read _ _) λ ram _.
          bind-Holds (int_read _ _) λ disk _. bind-Holds (int_read _ _) λ minutes _.
            bind-Holds (int_read _ _) λ cooldown _. bind-Holds (int_read _ _) λ port _.
              validate-Holds net
                (configuration lookup app backups dumps days warn ram disk minutes cooldown port)

-- Whatever the environment is, every configuration that is loaded has an address, four URLs with a
-- scheme and a host, HTTPS and a master key unless the public URL is for this host, all of the GitHub
-- settings or none of its texts, a retention of at least a day, a schedule with an hour up to 23 and a
-- minute up to 59, warning percentages from 1 to 99, an interval and a cooldown of at least a minute,
-- and a mail port from 1 to 65535; any other environment is refused with an error.
pub load_from_lookup-IsValid :
    (net : Net) (lookup : Lookup) (c : Config)
    → load_from_lookup net lookup ≡ value c
    → IsValid net c
load_from_lookup-IsValid net lookup c h = Holds-value (load-Holds lookup net) h
