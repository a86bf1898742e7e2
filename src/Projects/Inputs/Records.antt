-- ===== src/Projects/Inputs/Records.antt =====
-- The records that `recordFromInput` makes (internal/projects/service.go).
use caddytower.Prelude.{
  ◌≤◌, ◌≡◌, refl, ◌⊎◌, inl, inr, Bool, true, false, not, List, [], is_empty, Bool-cases, if_holds,
  arith,
}
use caddytower.Prelude.Int.{ℤ, pos, negsuc}
use caddytower.Prelude.Results.{
  Result, value, error, Holds, held, erred, bind-Holds, then-Holds, Holds-value,
}
use caddytower.Prelude.Texts.{Text, codes, text_eq, text_eq_iff, trim_space, to_lower}
use caddytower.Secrets
use caddytower.Secrets.{Crypto}
use caddytower.Projects.{ProjectPort}
use caddytower.Projects.Ports.{Parsed, parse_port_mappings}
use caddytower.Projects.Ports.Accepted.{Published, parse_port_mappings-Published}
use caddytower.Projects.Inputs.{InputError, parse_mounts_text, parse_http_routes_text}
use caddytower.Projects.Inputs.Accepted.{Mounted, parse_mounts_text-Mounted}
use caddytower.Projects.Inputs.Rules.{Ruled, parse_http_routes_text-Ruled}
use caddytower.Projects.Inputs.Env.{Env, encode_env, parse_env_text}
use caddytower.Projects.Inputs.Form.{
  WebProjectInput, ProjectRecord, FormError, Exposure, Draws, check, of_input, of_ports, of_secrets,
  matches_slug, is_kind, project_kind, record_slug, fair_subdomain, in_range, nat_of,
  check_health_input, web_exposure, port_exposure, exposure_of, record_from_input,
}

-- What is exposed fits the type of the project.
pub data Exposed (kind subdomain : Text) (x : Exposure) : Type 0 where
  web_exposed :
      kind ≡ codes "web"
      → is_empty subdomain ≡ false
      → fair_subdomain subdomain ≡ true
      → (1 ≤ x.inside) × (x.inside ≤ 65535)
      → x.published ≡ []
      → Ruled x.routes
      → Exposed kind subdomain x
  port_exposed :
      (kind ≡ codes "tcp") ⊎ (kind ≡ codes "udp")
      → x.inside ≡ 0
      → Published kind x.published
      → x.routes ≡ []
      → Exposed kind subdomain x

abbrev pub exposure_in : ProjectRecord → Exposure
exposure_in r = record { inside = r.internal_port; published = r.ports; routes = r.http_routes }

-- A record that the other parts of the program can rely on.
pub record IsRecord (r : ProjectRecord) : Type 0 where
  pub named : is_empty r.name ≡ false
  pub slug_matches : matches_slug r.slug ≡ true
  pub image_given : is_empty r.image_ref ≡ false
  pub mounted : Mounted r.mounts
  pub exposed : Exposed r.kind r.subdomain (exposure_in r)

check-Checked : (b : Bool) (e : FormError) → Holds (λ _. b ≡ true) (check b e)
check-Checked true e = held refl
check-Checked false e = erred

of_input-Holds :
    {A : Type 0} (P : A → Type 0) (r : Result InputError A)
    → ((a : A) → r ≡ value a → P a)
    → Holds P (of_input r)
of_input-Holds P (value a) h = held (h a refl)
of_input-Holds P (error e) h = erred

of_ports-Holds :
    (P : List ProjectPort → Type 0) (r : Parsed)
    → ((ps : List ProjectPort) → r ≡ Parsed.accepted ps → P ps)
    → Holds P (of_ports r)
of_ports-Holds P (Parsed.accepted ps) h = held (h ps refl)
of_ports-Holds P (Parsed.refused e) h = erred

of_secrets-Holds : (r : Secrets.Result Env) → Holds (λ _. Unit {0}) (of_secrets r)
of_secrets-Holds (Secrets.value env) = held tt
of_secrets-Holds (Secrets.error e) = erred

nat_in_range : (n : ℤ) → in_range (pos 1) (pos 65535) n ≡ true → (1 ≤ nat_of n) × (nat_of n ≤ 65535)
nat_in_range (pos n) h = (ground arith, ground arith)
nat_in_range (negsuc n) h = absurd cc

health_checked :
    (path : Text) (timeout : ℤ) → Holds (λ _. Unit {0}) (check_health_input path timeout)
health_checked path timeout = go (check_health_input path timeout)
  where
    go : (r : Result FormError (Unit {0})) → Holds (λ _. Unit {0}) r
    go (value t) = held tt
    go (error e) = erred

web-Exposed :
    (i : WebProjectInput) (kind subdomain : Text)
    → kind ≡ codes "web"
    → Holds (Exposed kind subdomain) (web_exposure i subdomain)
unfolding web_exposure
web-Exposed i kind subdomain e = then-Holds (check-Checked (not (is_empty subdomain)) _) λ given.
    then-Holds (check-Checked (fair_subdomain subdomain) _) λ fair.
      then-Holds (check-Checked (in_range (pos 1) (pos 65535) i.internal_port) _) λ ranged.
        bind-Holds (health_checked i.health_check_path i.health_check_timeout) λ _ _.
          bind-Holds
            (of_input-Holds Ruled (parse_http_routes_text i.http_routes_text)
              (parse_http_routes_text-Ruled i.http_routes_text))
            λ routes ruled.
              held
                (web_exposed e (ground arith) fair (nat_in_range i.internal_port ranged) refl ruled)

ports-Exposed :
    (i : WebProjectInput) (kind subdomain : Text)
    → (kind ≡ codes "tcp") ⊎ (kind ≡ codes "udp")
    → Holds (Exposed kind subdomain) (port_exposure i kind)
unfolding port_exposure
ports-Exposed i kind subdomain e =
    then-Holds (check-Checked (is_empty (trim_space i.http_routes_text)) _) λ _.
      bind-Holds
        (of_ports-Holds (Published kind) (parse_port_mappings i.port_mappings_text kind)
          (λ ps h. parse_port_mappings-Published i.port_mappings_text kind ps h))
        λ ports published. held (port_exposed e refl published refl)

not_web :
    (kind : Text)
    → is_kind kind ≡ true
    → text_eq kind (codes "web") ≡ false
    → (kind ≡ codes "tcp") ⊎ (kind ≡ codes "udp")
unfolding is_kind
not_web kind k w = elim (Bool-cases (text_eq kind (codes "tcp"))) [
  | inl e ↦ inl ((text_eq_iff kind (codes "tcp")).0 e)
  | inr e ↦ inr ((text_eq_iff kind (codes "udp")).0 (ground arith))
]

exposure-Exposed :
    (i : WebProjectInput) (kind subdomain : Text)
    → is_kind kind ≡ true
    → Holds (Exposed kind subdomain) (exposure_of i kind subdomain)
unfolding exposure_of
exposure-Exposed i kind subdomain k =
    if_holds (Holds (Exposed kind subdomain)) (text_eq kind (codes "web"))
      (λ e. web-Exposed i kind subdomain ((text_eq_iff kind (codes "web")).0 e))
      (λ e. ports-Exposed i kind subdomain (not_web kind k e))

module _ (c : Crypto) (s : Secrets.Service) where
  checked-IsRecord :
      (i : WebProjectInput) (d : Draws) (slug : Text)
      → Holds IsRecord (record_from_input c s i d slug)
  unfolding record_from_input
  checked-IsRecord i d slug =
      let kind = project_kind i.kind in
      let subdomain = trim_space (to_lower i.subdomain) in
      then-Holds (check-Checked (is_kind kind) _) λ typed.
        then-Holds (check-Checked (not (is_empty (trim_space i.name))) _) λ named.
          then-Holds (check-Checked (matches_slug (record_slug slug i.slug)) _) λ matched.
            then-Holds (check-Checked (not (is_empty (trim_space i.image_ref))) _) λ image.
              bind-Holds
                (of_input-Holds Mounted (parse_mounts_text i.mounts_text)
                  (parse_mounts_text-Mounted i.mounts_text))
                λ mounts mounted. bind-Holds (exposure-Exposed i kind subdomain typed) λ x exposed.
                  bind-Holds
                    (of_secrets-Holds (encode_env c s d.random_nonce 0 (parse_env_text i.env_text)))
                    λ env _. held (record {
                      named = ground arith;
                      slug_matches = matched;
                      image_given = ground arith;
                      mounted = mounted;
                      exposed = exposed;
                    })

  -- Whatever is put into the form, a record that is made of it has a name, a slug that matches the
  -- pattern and an image; its mounts are absolute, unreserved and distinct; a web project has a fair
  -- subdomain, an inner port from 1 to 65535, well-formed rules and no published ports; a TCP or UDP
  -- project has well-formed published ports and neither rules nor an inner port; and there is no other
  -- type. Anything else in the form is refused with an error.
  pub record_from_input-IsRecord :
      (i : WebProjectInput) (d : Draws) (slug : Text) (r : ProjectRecord)
      → record_from_input c s i d slug ≡ value r
      → IsRecord r
  record_from_input-IsRecord i d slug r h = Holds-value (checked-IsRecord i d slug) h
