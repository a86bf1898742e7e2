-- ===== src/Projects/Inputs/Sealed.antt =====
-- The environment of a project as it is stored and read back (internal/projects/service.go).
use caddytower.Prelude.{ℕ, suc, ◌≡◌, refl, sym, ap, ◌∙◌, Option, none, some, [], ◌∷◌, ◌++◌, length}
use caddytower.Prelude.Texts.{Text, codes, has_prefix, trim_prefix, drop_prefix}
use caddytower.Secrets.{
  Crypto, IsSound, Service, keyed, Result, value, error, nonce_size, encrypt_string, decrypt_string,
}
use caddytower.Secrets.RoundTrip.{decrypt-encrypt}
use caddytower.Projects.Inputs.Env.{
  Env, sealed_text, with_value, encode_secret, decode_secret, encode_env, decode_env,
}

abbrev the_text : Result Text → Text
the_text (value s) = s
the_text (error e) = []

abbrev the_env : Result Env → Env
the_env (value env) = env
the_env (error e) = []

decode-prefixed :
    (c : Crypto) (service : Service) (t : Text)
    → decode_secret c service (codes "enc:" ++ t) ≡ decrypt_string c service t
unfolding decode_secret has_prefix trim_prefix drop_prefix
decode-prefixed c service [] = refl
decode-prefixed c service (x ∷ t) = refl

module _ (c : Crypto) (sound : IsSound c) (key : Text) where
  decode-sealed :
      (v : Text) (o : Result Text) (stored : Text)
      → ((s : Text) → o ≡ value s → decrypt_string c (keyed key) s ≡ value v)
      → sealed_text o ≡ value stored
      → decode_secret c (keyed key) stored ≡ value v
  unfolding decode_secret
  decode-sealed v (error e) stored h k = absurd cc
  decode-sealed v (value s) stored h k =
      ap (decode_secret c (keyed key)) (sym (ap the_text k))
      ∙ decode-prefixed c (keyed key) s
      ∙ h s refl

  no_nonce_fails : (v s : Text) → ¬ (encrypt_string c none (keyed key) v ≡ value s)
  unfolding encrypt_string
  no_nonce_fails v s e = absurd cc

  decode-encode_secret :
      (random : Option Text) (v stored : Text)
      → ((nonce : Text) → random ≡ some nonce → length nonce ≡ nonce_size)
      → encode_secret c (keyed key) random v ≡ value stored
      → decode_secret c (keyed key) stored ≡ value v
  unfolding encode_secret decode_secret
  decode-encode_secret random [] stored h k = ap (decode_secret c (keyed key)) (sym (ap the_text k))
  decode-encode_secret random (x ∷ v) stored h k =
      decode-sealed (x ∷ v) (encrypt_string c random (keyed key) (x ∷ v)) stored (opens random h) k
    where
      opens :
          (r : Option Text)
          → ((nonce : Text) → r ≡ some nonce → length nonce ≡ nonce_size)
          → (s : Text) → encrypt_string c r (keyed key) (x ∷ v) ≡ value s
          → decrypt_string c (keyed key) s ≡ value (x ∷ v)
      opens none n s e = absurd (no_nonce_fails (x ∷ v) s e)
      opens (some nonce) n s e = decrypt-encrypt c sound key nonce (x ∷ v) s (n nonce refl) e

  with_value-decoded :
      (name v : Text) (o : Result Text) (rest : Result Env) (stored : Env) (env : Env)
      → ((w : Text) → o ≡ value w → decode_secret c (keyed key) w ≡ value v)
      → ((e : Env) → rest ≡ value e → decode_env c (keyed key) e ≡ value env)
      → with_value name o rest ≡ value stored
      → decode_env c (keyed key) stored ≡ value ((name, v) ∷ env)
  unfolding decode_env
  with_value-decoded name v (error x) rest stored env h k e = absurd cc
  with_value-decoded name v (value w) (error x) stored env h k e = absurd cc
  with_value-decoded name v (value w) (value t) stored env h k e =
      ap (decode_env c (keyed key)) (sym (ap the_env e)) ∙ rw (h w refl, k t refl) refl

  -- What is stored of an environment is read back as the environment, whatever its names and values are,
  -- if there is a master key, every nonce that the random source gives has twelve bytes, and base64 and
  -- AES-GCM undo themselves.
  pub decode-encode_env :
      (random : ℕ → Option Text) (n : ℕ) (env stored : Env)
      → ((k : ℕ) (nonce : Text) → random k ≡ some nonce → length nonce ≡ nonce_size)
      → encode_env c (keyed key) random n env ≡ value stored
      → decode_env c (keyed key) stored ≡ value env
  unfolding encode_env decode_env
  decode-encode_env random n [] stored h e = ap (decode_env c (keyed key)) (sym (ap the_env e))
  decode-encode_env random n ((name, v) ∷ env) stored h e =
      with_value-decoded name v (encode_secret c (keyed key) (random n) v)
        (encode_env c (keyed key) random (suc n) env) stored env
        (λ w k. decode-encode_secret (random n) v w (h n) k)
        (λ t k. decode-encode_env random (suc n) env t h k) e
