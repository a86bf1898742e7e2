-- ===== src/Secrets/RoundTrip.antt =====
-- What is sealed under a key opens under it (internal/secrets/secrets.go).
use caddytower.Prelude.{◌≡◌, some, ◌++◌, length, length-append, take-append, drop-append, arith}
use caddytower.Prelude.Texts.{Text}
use caddytower.Secrets.{
  Crypto, IsSound, nonce_size, value, keyed, encrypt_string, decrypt_string, open_payload,
}

module _ (c : Crypto) (sound : IsSound c) where
  open_payload-seal :
      (key nonce plaintext : Text)
      → length nonce ≡ nonce_size
      → open_payload c key (nonce ++ c.seal key nonce plaintext) ≡ value plaintext
  unfolding open_payload
  open_payload-seal key nonce p h = ground (
    arith,
    length-append nonce (c.seal key nonce p),
    take-append nonce_size nonce (c.seal key nonce p) h,
    drop-append nonce_size nonce (c.seal key nonce p) h,
    sound.unseal-seal key nonce p,
  )

  -- Under every key and every nonce of twelve bytes, a text that `EncryptString` returns is opened
  -- by `DecryptString` to the plaintext, if base64 and AES-GCM undo themselves.
  pub decrypt-encrypt :
      (key nonce plaintext sealed : Text)
      → length nonce ≡ nonce_size
      → encrypt_string c (some nonce) (keyed key) plaintext ≡ value sealed
      → decrypt_string c (keyed key) sealed ≡ value plaintext
  unfolding encrypt_string decrypt_string
  decrypt-encrypt key nonce p sealed h e =
      ground
        (arith, sound.decode-encode (nonce ++ c.seal key nonce p), open_payload-seal key nonce p h)
