-- ===== src/Caddy/Reconcile.antt =====
-- What a reconciliation with Caddy leaves behind (`ReconcileManagedRoutes`,
-- internal/caddyadmin/service.go).
use caddytower.Prelude.{
  ◌≡◌, refl, sym, ap, ◌∙◌, ◌⊎◌, inl, inr, Bool, true, false, Option, none, some, List, if_holds,
  if◌then◌else◌, Bool-cases,
}
use caddytower.Prelude.Texts.{Text, text_eq, text_eq_iff}
use caddytower.Prelude.Results.{Result, value, error}
use caddytower.Prelude.Effects.{M, Outcome, ok, fail, Ends, done, failed, bind-Ends, Ends-mono}
use caddytower.Caddy.{HttpRoute}
use caddytower.Caddy.Client.{
  JsonCodec, Response, AdminApi, CaddyError, send_load, load_status, normalize_json, merge_config,
  body_of, lifted, normalized, load_config, normalize_current, normalize_merged, send_get,
  get_status, reconcile_managed_routes,
}

-- What the documentation of the API says: reading changes nothing; a load that succeeds leaves its
-- configuration as the one that is read from then on, up to the normal form of its JSON; one that fails, or
-- whose response is lost, may have been applied or not.
pub record IsAdminApi (json : JsonCodec) (api : AdminApi) : Type 0 where
  pub get_config-Ends :
      (s : api.Admin)
      → Ends
          (λ r t. (r.is_success ≡ true → r.body ≡ api.config s) × (api.config t ≡ api.config s))
          (λ _ t. api.config t ≡ api.config s)
          (api.get_config s)
  pub post_load-Ends :
      (body : Text) (s : api.Admin)
      → Ends
          (λ r t.
            (r.is_success ≡ true → normalize_json json (api.config t) ≡ normalize_json json body)
            × ((api.config t ≡ api.config s)
                ⊎ (normalize_json json (api.config t) ≡ normalize_json json body)))
          (λ _ t.
            (api.config t ≡ api.config s)
            ⊎ (normalize_json json (api.config t) ≡ normalize_json json body))
          (api.post_load body s)

module _ (json : JsonCodec) (api : AdminApi) (sound : IsAdminApi json api) (routes : List HttpRoute)
    (keys : List Text) where
  -- The text has the JSON of the merge of the routes into another one.
  abbrev pub IsMerge : Text → Text → Type 0
  IsMerge old new =
      (merged : Text) × (merge_config json old routes keys ≡ value merged)
      × (normalize_json json new ≡ normalize_json json merged)

  -- A success: the merge is what Caddy has, and there was a load exactly if it had another one.
  abbrev pub Merged : Text → Bool → Text → Type 0
  Merged old changed new =
      IsMerge old new
      × (changed ≡ false → new ≡ old)
      × (changed ≡ true → ¬ (normalize_json json old ≡ normalize_json json new))

  -- A failure: Caddy has what it had, or a load of the merge failed after it was applied.
  abbrev pub Left : Text → CaddyError → Text → Type 0
  Left old e new = (new ≡ old) ⊎ (((e ≡ send_load) ⊎ (e ≡ load_status)) × IsMerge old new)

  lifted-Ends :
      {A : Type 0} (r : Result CaddyError A) (s : api.Admin)
      → Ends (λ x t. (r ≡ value x) × (t ≡ s)) (λ _ t. t ≡ s) (lifted json api r s)
  lifted-Ends (value x) s = done (refl, refl)
  lifted-Ends (error e) s = failed refl

  normalized-Ends :
      (e : CaddyError) (o : Option Text) (s : api.Admin)
      → Ends (λ x t. (o ≡ some x) × (t ≡ s)) (λ _ t. t ≡ s) (normalized json api e o s)
  normalized-Ends e none s = failed refl
  normalized-Ends e (some x) s = done (refl, refl)

  body_of-Ends :
      {P : Text → api.Admin → Type 0} {R : CaddyError → api.Admin → Type 0}
      (sending status : CaddyError) (request : M api.Admin Text Response) (s : api.Admin)
      → Ends
          (λ r t. (r.is_success ≡ true → P r.body t) × R status t)
          (λ _ t. R sending t)
          (request s)
      → Ends P R (body_of json api sending status request s)
  unfolding body_of
  body_of-Ends {P} {R} sending status request s = go (request s)
    where
      go :
          (o : Outcome api.Admin Text Response)
          → Ends (λ r t. (r.is_success ≡ true → P r.body t) × R status t) (λ _ t. R sending t) o
          → Ends P R (elim o [
            | fail e t ↦ fail sending t
            | ok r t ↦ if r.is_success then ok r.body t else fail status t
          ])
      go (fail e t) (failed h) = failed h
      go (ok r t) (done h) = if_holds (Ends P R) r.is_success (λ e. done (h.0 e)) (λ _. failed h.1)

  got-Ends :
      (s : api.Admin)
      → Ends
          (λ x t. (x ≡ api.config s) × (api.config t ≡ api.config s))
          (λ _ t. api.config t ≡ api.config s)
          (body_of json api send_get get_status api.get_config s)
  got-Ends s =
      body_of-Ends send_get get_status api.get_config s
        (Ends-mono (sound.get_config-Ends s) (λ _ _ h. ((λ e. (h.0 e, h.1)), h.1)) (λ _ _ h. h))

  -- What a load leaves of a configuration that was another one.
  abbrev Loads : Text → Text → CaddyError → Text → Type 0
  Loads merged old e new =
      (new ≡ old)
      ⊎ (((e ≡ send_load) ⊎ (e ≡ load_status))
          × (normalize_json json new ≡ normalize_json json merged))

  loaded-Ends :
      (merged : Text) (s : api.Admin)
      → Ends
          (λ b t. (b ≡ true) × (normalize_json json (api.config t) ≡ normalize_json json merged))
          (λ e t. Loads merged (api.config s) e (api.config t))
          (load_config json api merged s)
  unfolding load_config
  loaded-Ends merged s =
      bind-Ends
        (body_of-Ends send_load load_status (api.post_load merged) s (
          Ends-mono (sound.post_load-Ends merged s)
            (λ r t h. (h.0, either_way load_status t (inr refl) h.1))
            (λ _ t h. either_way send_load t (inl refl) h)))
        λ answer t h. done (refl, h)
    where
      either_way :
          (e : CaddyError) (t : api.Admin)
          → (e ≡ send_load) ⊎ (e ≡ load_status)
          → (api.config t ≡ api.config s)
            ⊎ (normalize_json json (api.config t) ≡ normalize_json json merged)
          → Loads merged (api.config s) e (api.config t)
      either_way e t stage (inl same) = inl same
      either_way e t stage (inr new) = inr (stage, new)

  -- The part after the configuration is read and merged and both are normalised.
  compared-Ends :
      (merged before after : Text) (old : Text) (s : api.Admin)
      → api.config s ≡ old
      → merge_config json old routes keys ≡ value merged
      → normalize_json json old ≡ some before
      → normalize_json json merged ≡ some after
      → Ends
          (λ b t. Merged old b (api.config t))
          (λ e t. Left old e (api.config t))
          ((if text_eq before after then ok false else load_config json api merged) s)
  compared-Ends merged before after old s here m b a = elim (Bool-cases (text_eq before after)) [
    | inl e ↦
        let same : normalize_json json old ≡ normalize_json json merged =
          b ∙ ap some ((text_eq_iff before after).0 e) ∙ sym a in
        rw e (
          done ((merged, m, ap (normalize_json json) here ∙ same), (λ _. here), (λ bad. absurd cc)))
    | inr e ↦
        let other : ¬ (normalize_json json old ≡ normalize_json json merged) = λ same. absurd (
          let eq : before ≡ after = some_inj before after (sym b ∙ same ∙ a) in
          let yes = (text_eq_iff before after).1 eq in cc) in
        rw e (
          Ends-mono (loaded-Ends merged s)
            (λ c t h. (
              (merged, m, h.1),
              (λ bad. absurd (let yes = h.0 in cc)),
              (λ _ same. other (same ∙ h.1)),
            ))
            (λ x t h. left_of x t h))
  ]
    where
      some_inj : (x y : Text) → some x ≡ some y → x ≡ y
      some_inj x y h = cc

      left_of :
          (x : CaddyError) (t : api.Admin)
          → Loads merged (api.config s) x (api.config t)
          → Left old x (api.config t)
      left_of x t (inl same) = inl (same ∙ here)
      left_of x t (inr k) = inr (k.0, (merged, m, k.1))

  -- If the API does what its documentation says, then after a success Caddy's configuration is, in
  -- normal form, the merge of the routes into the configuration that it had before; it is that
  -- configuration itself where the answer is that nothing was changed, and it has another normal form
  -- where the answer is that it was. After a failure it is what it was, or, only where the load itself
  -- failed, that merge in normal form.
  pub reconcile-settles :
      (s : api.Admin)
      → Ends
          (λ changed t. Merged (api.config s) changed (api.config t))
          (λ e t. Left (api.config s) e (api.config t))
          (reconcile_managed_routes json api routes keys s)
  unfolding reconcile_managed_routes
  reconcile-settles s =
      let old = api.config s in
      bind-Ends (Ends-mono (got-Ends s) (λ _ _ h. h) (λ _ _ h. inl h)) λ current s1 h1.
        bind-Ends
          (Ends-mono (lifted-Ends (merge_config json current routes keys) s1) (λ _ _ h. h)
            (λ _ t h. inl (ap api.config h ∙ h1.1)))
          λ merged s2 h2.
            bind-Ends
              (Ends-mono (normalized-Ends normalize_current (normalize_json json current) s2)
                (λ _ _ h. h) (λ _ t h. inl (ap api.config (h ∙ h2.1) ∙ h1.1)))
              λ before s3 h3.
                bind-Ends
                  (Ends-mono (normalized-Ends normalize_merged (normalize_json json merged) s3)
                    (λ _ _ h. h) (λ _ t h. inl (ap api.config (h ∙ h3.1 ∙ h2.1) ∙ h1.1)))
                  λ after s4 h4.
                    compared-Ends merged before after old s4
                      (ap api.config (h4.1 ∙ h3.1 ∙ h2.1) ∙ h1.1)
                      (ap (λ (x : Text). merge_config json x routes keys) (sym h1.0) ∙ h2.0)
                      (ap (normalize_json json) (sym h1.0) ∙ h3.0) h4.0
