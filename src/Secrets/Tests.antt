-- ===== src/Secrets/Tests.antt =====
-- Runs of internal/secrets/secrets.go under a cipher that changes nothing.
use caddytower.Prelude.{◌≡◌, refl, some, ◌++◌, replicate}
use caddytower.Prelude.Texts.{Text, codes}
use caddytower.Secrets.{
  Crypto, IsSound, keyed, value, error, bad_key_size, new_from_base64, encrypt_string,
  decrypt_string, key_size,
}
use caddytower.Secrets.RoundTrip.{decrypt-encrypt}

abbrev pub open_crypto : Crypto
open_crypto = record {
  base64_encode = λ b. b;
  base64_decode = λ b. some b;
  seal = λ k n p. p;
  unseal = λ k n p. some p;
}

pub open_crypto-IsSound : IsSound open_crypto
open_crypto-IsSound = record { decode-encode = λ b. refl; unseal-seal = λ k n p. refl }

abbrev key : Text
key = replicate key_size 7

abbrev random : Text
random = replicate 12 1

short_key : new_from_base64 open_crypto (codes "abc") ≡ error bad_key_size
unfolding new_from_base64
short_key = refl

decrypt-encrypt_example :
    decrypt_string open_crypto (keyed key) (random ++ codes "token") ≡ value (codes "token")
unfolding encrypt_string
decrypt-encrypt_example =
    decrypt-encrypt open_crypto open_crypto-IsSound key random (codes "token")
      (random ++ codes "token") refl refl
