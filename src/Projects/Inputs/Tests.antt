-- ===== src/Projects/Inputs/Tests.antt =====
-- A form with mounts, rules and an environment (internal/projects/service.go).
use caddytower.Prelude.{
  ◌≡◌, refl, sym, ap, true, false, Option, none, some, List, [], ◌∷◌, ◌++◌, length,
}
use caddytower.Prelude.Int.{pos}
use caddytower.Prelude.Results.{value, error}
use caddytower.Prelude.Texts.{Text, codes}
use caddytower.Secrets
use caddytower.Secrets.{Crypto, IsSound, nil, keyed, nonce_size}
use caddytower.Projects.{ProjectMount, ProjectHttpRoute}
use caddytower.Projects.Inputs.{
  parse_mounts_text, mounts_text, parse_http_routes_text, reserved_target, route_with,
}
use caddytower.Projects.Inputs.Accepted.{Mounted, parse_mounts_text-Mounted}
use caddytower.Projects.Inputs.Shown.{parse_mounts_text-mounts_text}
use caddytower.Projects.Inputs.Rules.{Ruled, parse_http_routes_text-Ruled}
use caddytower.Projects.Inputs.Env.{Env, encode_env, decode_env, parse_env_text}
use caddytower.Projects.Inputs.Sealed.{decode-encode_env}
use caddytower.Projects.Inputs.Form.{
  WebProjectInput, ProjectRecord, Draws, project_record, record_from_input,
}
use caddytower.Projects.Inputs.Records.{IsRecord, record_from_input-IsRecord}

abbrev plain : Crypto
plain = record {
  base64_encode = λ b. b;
  base64_decode = λ b. some b;
  seal = λ k n p. p;
  unseal = λ k n p. some p;
}

plain-IsSound : IsSound plain
plain-IsSound = record { decode-encode = λ b. refl; unseal-seal = λ k n p. refl }

abbrev mounts_raw : Text
mounts_raw = codes " /srv/a | /data/a | RO " ++ 10 ∷ 10 ∷ codes "/srv/b|/b"

abbrev two_mounts : List ProjectMount
two_mounts =
    record { source = codes "/srv/a"; target = codes "/data/a"; read_only = true }
    ∷ record { source = codes "/srv/b"; target = codes "/b"; read_only = false }
    ∷ []

mounts_parsed : parse_mounts_text mounts_raw ≡ value two_mounts
unfolding parse_mounts_text
mounts_parsed = refl

mounts_again : parse_mounts_text (mounts_text two_mounts) ≡ value two_mounts
unfolding parse_mounts_text mounts_text
mounts_again = refl

refused_socket : parse_mounts_text (codes "/a | /var/run/docker.sock") ≡ error (reserved_target 1)
unfolding parse_mounts_text
refused_socket = refl

-- A mode behind the target hides that the target is reserved.
hidden_target :
    parse_mounts_text (codes "/srv | /data:rw")
    ≡ value (record { source = codes "/srv"; target = codes "/data:rw"; read_only = false } ∷ [])
unfolding parse_mounts_text
hidden_target = refl

mounts-Mounted : Mounted two_mounts
mounts-Mounted = parse_mounts_text-Mounted mounts_raw two_mounts mounts_parsed

parse_mounts_text-mounts_text_example :
    parse_mounts_text (mounts_text two_mounts) ≡ value two_mounts
parse_mounts_text-mounts_text_example =
    parse_mounts_text-mounts_text mounts_raw two_mounts mounts_parsed

abbrev rules_raw : Text
rules_raw = codes "@domains | prefix | /api | strip" ++ 10 ∷ codes "App.test. | host"

abbrev two_rules : List ProjectHttpRoute
two_rules =
    route_with [] (codes "path_prefix") (codes "/api") (true, []) 0
    ∷ route_with (codes "app.test") (codes "host") [] (false, []) 1
    ∷ []

rules_parsed : parse_http_routes_text rules_raw ≡ value two_rules
unfolding parse_http_routes_text
rules_parsed = refl

-- A match type that is not known is taken for a host.
unknown_type :
    parse_http_routes_text (codes "app.test | regexp")
    ≡ value (route_with (codes "app.test") (codes "host") [] (false, []) 0 ∷ [])
unfolding parse_http_routes_text
unknown_type = refl

parse_http_routes_text-Ruled_example : Ruled two_rules
parse_http_routes_text-Ruled_example = parse_http_routes_text-Ruled rules_raw two_rules rules_parsed

abbrev nonce : Text
nonce = codes "abcdefghijkl"

abbrev env : Env
env = (codes "A", codes "1") ∷ (codes "B", []) ∷ []

env_parsed :
    parse_env_text (codes "A=0" ++ 10 ∷ codes "# A=9" ++ 10 ∷ codes "B" ++ 10 ∷ codes "A = 1") ≡ env
unfolding parse_env_text
env_parsed = refl

abbrev stored_env : Env
stored_env = (codes "A", codes "enc:abcdefghijkl1") ∷ (codes "B", []) ∷ []

env_stored : encode_env plain (keyed []) (λ _. some nonce) 0 env ≡ Secrets.value stored_env
unfolding encode_env
env_stored = refl

decode-encode_env_example : decode_env plain (keyed []) stored_env ≡ Secrets.value env
decode-encode_env_example =
    decode-encode_env plain plain-IsSound [] (λ _. some nonce) 0 env stored_env (λ k n h. long n h)
      env_stored
  where
    nonce_or : Option Text → Text
    nonce_or none = nonce
    nonce_or (some n) = n

    long : (n : Text) → some nonce ≡ some n → length n ≡ nonce_size
    long n h = ap (λ o. length (nonce_or o)) (sym h)

abbrev form : WebProjectInput
form = record {
  kind = codes "";
  id = [];
  name = codes " Shop ";
  slug = codes "shop";
  image_ref = codes "ghcr.io/a/b";
  github_repo_full_name = [];
  github_installation_id = pos 0;
  github_default_branch = [];
  subdomain = codes "Shop";
  internal_port = pos 8080;
  port_mappings_text = [];
  watchtower_enabled = false;
  env_text = codes "A=1";
  mounts_text = mounts_raw;
  http_routes_text = rules_raw;
  health_check_path = codes "/ready";
  health_check_timeout = pos 0;
}

abbrev draws : Draws
draws = record { uuid = codes "u"; random_secret = codes "s"; random_nonce = λ _. some nonce }

abbrev recorded : ProjectRecord
recorded =
    project_record form draws (codes "web") (codes "shop") (codes "shop")
      (record { inside = 8080; published = []; routes = two_rules }) two_mounts
      ((codes "A", codes "1") ∷ [])

form_accepted : record_from_input plain nil form draws [] ≡ value recorded
unfolding record_from_input
form_accepted = refl

record_from_input-IsRecord_example : IsRecord recorded
record_from_input-IsRecord_example =
    record_from_input-IsRecord plain nil form draws [] recorded form_accepted
