-- ===== src/Projects/Inputs/Env.antt =====
-- internal/projects/service.go: `parseEnvText`, `envText` and the sealed values of an environment. A Go
-- map is a list of pairs in which no key stands twice.
use caddytower.Prelude.{
  ℕ, suc, Bool, not, ◌||◌, Option, none, some, List, [], ◌∷◌, ◌++◌, map, is_empty, exists,
  update_where, if◌then◌else◌,
}
use caddytower.Prelude.Sorting.{sort}
use caddytower.Prelude.Texts.{
  Text, codes, text_eq, text_lt, split, join, cut, trim_space, has_prefix, trim_prefix,
}
use caddytower.Secrets.{
  Crypto, Service, nil, keyed, Result, value, error, encrypt_string, decrypt_string,
}

abbrev pub Env : Type 0
Env = List (Text × Text)

abbrev pub has_key : Text → Text × Text → Bool
has_key key entry = text_eq key entry.0

unfoldable pub put_env : Text → Text → Env → Env
unfolding exists update_where text_eq
put_env key v env =
    if exists (has_key key) env
    then update_where (has_key key) (λ _. (key, v)) env
    else env ++ (key, v) ∷ []

abbrev key_and_value : Text → Option (Text × Text) → Text × Text
key_and_value line none = (trim_space line, [])
key_and_value line (some (key, v)) = (trim_space key, trim_space v)

unfoldable pub read_env_line : Text → Env → Env
unfolding put_env cut trim_space
read_env_line line env =
    let entry = key_and_value line (cut b'=' line) in
    if is_empty entry.0 then env else put_env entry.0 entry.1 env

unfoldable pub read_env : List Text → Env → Env
unfolding read_env_line trim_space has_prefix
read_env [] env = env
read_env (line ∷ lines) env =
    if is_empty (trim_space line) || has_prefix (trim_space line) (codes "#")
    then read_env lines env
    else read_env lines (read_env_line (trim_space line) env)

unfoldable pub parse_env_text : Text → Env
unfolding read_env split
parse_env_text raw = read_env (split 10 raw) []

abbrev key_less : Text × Text → Text × Text → Bool
unfolding text_lt
key_less a b = text_lt a.0 b.0

unfoldable pub env_text : Env → Text
unfolding sort join text_lt
env_text env = join (10 ∷ []) (map (λ e. e.0 ++ codes "=" ++ e.1) (sort key_less env))

abbrev pub sealed_text : Result Text → Result Text
sealed_text (value s) = value (codes "enc:" ++ s)
sealed_text (error e) = error e

abbrev pub with_value : Text → Result Text → Result Env → Result Env
with_value key (error e) rest = error e
with_value key (value v) (error e) = error e
with_value key (value v) (value env) = value ((key, v) ∷ env)

module _ (c : Crypto) where
  -- The second argument is what the random source gives for this value.
  unfoldable pub encode_secret : Service → Option Text → Text → Result Text
  unfolding encrypt_string
  encode_secret nil random v = value v
  encode_secret (keyed key) random v =
      if is_empty v then value v else sealed_text (encrypt_string c random (keyed key) v)

  unfoldable pub decode_secret : Service → Text → Result Text
  unfolding decrypt_string has_prefix trim_prefix
  decode_secret s v =
      if not (has_prefix v (codes "enc:"))
      then value v
      else decrypt_string c s (trim_prefix v (codes "enc:"))

  unfoldable pub encode_env : Service → (ℕ → Option Text) → ℕ → Env → Result Env
  unfolding encode_secret
  encode_env s random n [] = value []
  encode_env s random n ((key, v) ∷ env) =
      with_value key (encode_secret s (random n) v) (encode_env s random (suc n) env)

  unfoldable pub decode_env : Service → Env → Result Env
  unfolding decode_secret
  decode_env s [] = value []
  decode_env s ((key, v) ∷ env) = with_value key (decode_secret s v) (decode_env s env)
