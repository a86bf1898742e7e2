-- ===== src/Secrets.antt =====
-- internal/secrets/secrets.go: strings sealed with AES-GCM under the master key, as base64 text.
-- AES-GCM, base64 and the random source are parameters.
pub mod RoundTrip
mod Tests
use caddytower.Prelude.{
  ℕ, ◌≡◌, Option, none, some, ◌++◌, length, take, drop, ltb, ◌==◌, if◌then◌else◌,
}
use caddytower.Prelude.Texts.{Text, text_eq, codes}

-- What the package calls: `base64.StdEncoding` and the `cipher.AEAD` of a key.
pub record Crypto : Type 0 where
  pub base64_encode : Text → Text
  pub base64_decode : Text → Option Text
  pub seal : Text → Text → Text → Text
  pub unseal : Text → Text → Text → Option Text

-- What their documentation promises.
pub record IsSound (c : Crypto) : Type 0 where
  pub decode-encode : (b : Text) → c.base64_decode (c.base64_encode b) ≡ some b
  pub unseal-seal : (k n p : Text) → c.unseal k n (c.seal k n p) ≡ some p

abbrev pub key_size : ℕ
key_size = 32

abbrev pub nonce_size : ℕ
nonce_size = 12

pub data SecretError : Type 0 where
  bad_base64 bad_key_size nil_service no_nonce too_short not_authentic : SecretError

pub data Result (A : Type 0) : Type 0 where
  value : A → Result A
  error : SecretError → Result A

-- A `*Service`: nil, or its key.
pub data Service : Type 0 where
  nil : Service
  keyed : Text → Service

module _ (c : Crypto) where
  unfoldable pub new_from_base64 : Text → Result Service
  new_from_base64 encoded = elim (c.base64_decode encoded) [
    | none ↦ error bad_base64
    | some key ↦ if length key == key_size then value (keyed key) else error bad_key_size
  ]

  unfoldable pub new_optional_from_base64 : Text → Result Service
  unfolding new_from_base64 text_eq
  new_optional_from_base64 encoded =
      if text_eq encoded (codes "") then value nil else new_from_base64 encoded

  -- The first argument is what `rand.Reader` gives, `none` where it fails.
  unfoldable pub encrypt_string : Option Text → Service → Text → Result Text
  encrypt_string random nil plaintext = error nil_service
  encrypt_string none (keyed key) plaintext = error no_nonce
  encrypt_string (some random) (keyed key) plaintext =
      value (c.base64_encode (random ++ c.seal key random plaintext))

  open_payload : Text → Text → Result Text
  open_payload key payload =
      if ltb (length payload) nonce_size
      then error too_short
      else (elim (c.unseal key (take nonce_size payload) (drop nonce_size payload)) [
        | none ↦ error not_authentic
        | some plaintext ↦ value plaintext
      ])

  unfoldable pub decrypt_string : Service → Text → Result Text
  unfolding open_payload
  decrypt_string nil encoded = error nil_service
  decrypt_string (keyed key) encoded = elim (c.base64_decode encoded) [
    | none ↦ error bad_base64
    | some payload ↦ open_payload key payload
  ]
