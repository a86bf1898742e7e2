-- ===== src/Docker/Requests.antt =====
-- The request that `RecreateContainer` makes of a specification (internal/dockerx/service.go).
use caddytower.Prelude.{
  ◌≡◌, refl, ap, ◌∙◌, ◌++◌, Option, none, some, List, [], ◌∷◌, map, is_empty, if◌then◌else◌,
}
use caddytower.Prelude.Effects.{fail, Ends, done, failed, bind-Ends, return, ◌>>=◌}
use caddytower.Prelude.Texts.{Text, codes}
use caddytower.Docker.{
  Request, ContainerSpec, DockerError, Api, must_ports, published_key, pair_up, PortBinding,
  env_slice, bind_mounts, restart_policy_name, invalid_port, request_of,
}

module _ (a : Api) where
  -- Every text is the reading of the port in its place.
  abbrev pub AreRead : List (Text × Text) → List Text → Type 0
  AreRead [] [] = Unit
  AreRead [] (t ∷ ts) = ⊥
  AreRead (p ∷ ps) [] = ⊥
  AreRead (p ∷ ps) (t ∷ ts) = (a.new_port p.0 p.1 ≡ some t) × AreRead ps ts

  ports-AreRead :
      (ports : List (Text × Text)) (w : a.World)
      → Ends (λ ts t. AreRead ports ts × (t ≡ w)) (λ _ _. Unit {0}) (must_ports a ports w)
  unfolding must_ports
  ports-AreRead [] w = done (tt, refl)
  ports-AreRead ((protocol, port) ∷ ports) w =
      go (a.new_port protocol port) refl (ports-AreRead ports w)
    where
      go :
          (o : Option Text)
          → a.new_port protocol port ≡ o
          → Ends (λ ts t. AreRead ports ts × (t ≡ w)) (λ _ _. Unit {0}) (must_ports a ports w)
          → Ends {E = DockerError} {A = List Text}
              (λ ts t. AreRead ((protocol, port) ∷ ports) ts × (t ≡ w))
              (λ _ _. Unit {0})
              (elim o [
                | none ↦ fail invalid_port w
                | some p ↦ (do rest ← must_ports a ports; return (p ∷ rest)) w
              ])
      go none e k = failed tt
      go (some p) e k = bind-Ends k (λ rest t h. done ((e, h.0), h.1))

  paired-keys :
      (bs : List PortBinding) (ps : List Text)
      → AreRead (map (published_key a) bs) ps
      → (map (λ x. x.0) (pair_up a ps bs) ≡ ps) × (map (λ x. x.1) (pair_up a ps bs) ≡ bs)
  paired-keys [] [] h = (refl, refl)
  paired-keys [] (p ∷ ps) h = absurd h
  paired-keys (b ∷ bs) [] h = absurd h
  paired-keys (b ∷ bs) (p ∷ ps) h =
      let rest = paired-keys bs ps h.1 in (ap (λ t. p ∷ t) rest.0, ap (λ t. b ∷ t) rest.1)

  -- The ports of a request are those of the specification as they are read, the exposed ones under
  -- tcp and the published ones under their protocols, and each published one is bound as the
  -- specification says.
  abbrev pub HasPorts : ContainerSpec → Request → Type 0
  HasPorts spec request =
      (exposed : List Text) × (published : List Text) × AreRead
        (map (λ p. (codes "tcp", p)) spec.exposed_ports) exposed
      × AreRead (map (published_key a) spec.published_ports) published
      × (request.exposed_ports ≡ exposed ++ published)
      × (map (λ x. x.0) request.port_bindings ≡ published)
      × (map (λ x. x.1) request.port_bindings ≡ spec.published_ports)

  -- The request asks for what the specification says.
  pub record IsRequest (spec : ContainerSpec) (request : Request) : Type 0 where
    pub ports : HasPorts spec request
    pub image : request.image ≡ spec.image
    pub command : request.command ≡ spec.command
    pub env : request.env ≡ env_slice spec.env
    pub labels : request.labels ≡ spec.labels
    pub binds : request.binds ≡ bind_mounts spec.mounts
    pub auto_remove : request.auto_remove ≡ spec.auto_remove
    pub restart_policy : request.restart_policy ≡ restart_policy_name spec.restart_policy
    pub network_mode : request.network_mode ≡ spec.network
    pub endpoints : request.endpoints ≡ (if is_empty spec.network then [] else spec.network ∷ [])

  pub made-IsRequest :
      (spec : ContainerSpec) (w : a.World)
      → Ends (λ r t. IsRequest spec r × (t ≡ w)) (λ _ _. Unit {0}) (request_of a spec w)
  unfolding request_of
  made-IsRequest spec w =
      bind-Ends (ports-AreRead (map (λ p. (codes "tcp", p)) spec.exposed_ports) w) λ exposed t h.
        bind-Ends (ports-AreRead (map (published_key a) spec.published_ports) t) λ published u k.
          let bound = paired-keys spec.published_ports published k.0 in
          done (
            record {
              ports = (exposed, published, h.0, k.0, refl, bound.0, bound.1);
              image = refl;
              command = refl;
              env = refl;
              labels = refl;
              binds = refl;
              auto_remove = refl;
              restart_policy = refl;
              network_mode = refl;
              endpoints = refl;
            },
            k.1 ∙ h.1,
          )
