-- ===== src/Caddy/Client.antt =====
-- internal/caddyadmin/service.go: `ReconcileManagedRoutes`, against Caddy's admin API, and the outer
-- part of `MergeManagedRoutes`, which reads and writes the text of a configuration. The API and
-- `encoding/json` are parameters.
use caddytower.Prelude.{Bool, true, false, Option, none, some, List, if◌then◌else◌}
use caddytower.Prelude.Texts.{Text, text_eq}
use caddytower.Prelude.Effects.{M, ok, fail, return, ◌>>=◌}
use caddytower.Prelude.Results.{Result, value, error}
use caddytower.Json.{Value, null, obj, end}
use caddytower.Caddy.{HttpRoute, is_blank}
use caddytower.Caddy.Merge.{merge_managed_routes}

-- `json.Unmarshal` into `any`, which fails on a text that is no JSON, and `json.Marshal` of what it
-- gives.
pub record JsonCodec : Type 0 where
  pub decode : Text → Option Value
  pub encode : Value → Text

-- A response that has been read to its end; `is_success` is a status of the form 2xx.
pub record Response : Type 0 where
  pub is_success : Bool
  pub body : Text

-- The requests fail where they cannot be sent or their response cannot be read. `config` is the
-- configuration that a state of Caddy has.
pub record AdminApi : Type 1 where
  pub Admin : Type 0
  pub config : Admin → Text
  pub get_config : M Admin Text Response
  pub post_load : Text → M Admin Text Response

-- The stages at which a reconciliation fails. `nil_map` is the panic of `ensureMap` on the map that
-- `null` is decoded as.
pub data CaddyError : Type 0 where
  send_get get_status unmarshal_config nil_map : CaddyError
  normalize_current normalize_merged send_load load_status : CaddyError

module _ (json : JsonCodec) where
  abbrev pub normalize_json : Text → Option Text
  normalize_json raw = elim (json.decode raw) [ none ↦ none | some v ↦ some (json.encode v) ]

  abbrev pub merge_value : Option Value → List HttpRoute → List Text → Result CaddyError Text
  merge_value none routes keys = error unmarshal_config
  merge_value (some (obj root)) routes keys =
      value (json.encode (obj (merge_managed_routes root routes keys)))
  merge_value (some null) routes keys = error nil_map
  merge_value (some _) routes keys = error unmarshal_config

  -- `MergeManagedRoutes`, on the text of the configuration.
  unfoldable pub merge_config : Text → List HttpRoute → List Text → Result CaddyError Text
  merge_config current routes keys =
      if is_blank current
      then value (json.encode (obj (merge_managed_routes end routes keys)))
      else merge_value (json.decode current) routes keys

module _ (json : JsonCodec) (api : AdminApi) where
  -- The body of a successful response.
  unfoldable pub body_of :
      CaddyError → CaddyError → M api.Admin Text Response → M api.Admin CaddyError Text
  body_of sending status request s = elim (request s) [
    | fail e t ↦ fail sending t
    | ok r t ↦ if r.is_success then ok r.body t else fail status t
  ]

  abbrev pub lifted : {A : Type 0} → Result CaddyError A → M api.Admin CaddyError A
  lifted (value x) s = ok x s
  lifted (error e) s = fail e s

  abbrev pub normalized : CaddyError → Option Text → M api.Admin CaddyError Text
  normalized e none s = fail e s
  normalized e (some t) s = ok t s

  -- The load of a configuration.
  unfoldable pub load_config : Text → M api.Admin CaddyError Bool
  unfolding body_of
  load_config merged = do answer ← body_of send_load load_status (api.post_load merged); return true

  -- Whether the configuration had to be changed.
  unfoldable pub reconcile_managed_routes : List HttpRoute → List Text → M api.Admin CaddyError Bool
  unfolding body_of merge_config load_config text_eq
  reconcile_managed_routes routes keys = do
    current ← body_of send_get get_status api.get_config
    merged ← lifted (merge_config json current routes keys)
    before ← normalized normalize_current (normalize_json json current)
    after ← normalized normalize_merged (normalize_json json merged)
    if text_eq before after then return false else load_config merged
