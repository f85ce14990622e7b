-- ===== src/Crypto/Scrypt/RoundTrip.antt =====
-- A text under a password, and back.
use panthalassa.Base.{
  ℕ, zero, suc, ◌≡◌, refl, ap, [], ◌∷◌, arith, Bytes, IsBytes, length, take, ok, err,
}
use panthalassa.Crypto.Aes.{random_failed, unknown_version, ctr_encrypt, ctr_decrypt}
use panthalassa.Crypto.Aes.RoundTrip.{ctr_decrypt-encrypt}
use panthalassa.Crypto.Scrypt.{Scrypt, ScryptText, aes, new_cipher_text, decrypt_cipher_text}

take-length : (xs : Bytes) (n : ℕ) → length xs ≡ n → take n xs ≡ xs
take-length [] zero h = refl
take-length [] (suc n) h = absurd (omega arith)
take-length (x ∷ xs) zero h = absurd (omega arith)
take-length (x ∷ xs) (suc n) h = ap (λ ys. x ∷ ys) (take-length xs n (omega arith))

module _ (S : Scrypt) (salt iv text password key : Bytes)
    (derived : S.derive_key password salt 16384 8 1 32 ≡ ok key) (key_fits : length key ≡ 32) where
  -- A text that `NewCipherText` encrypts under a password, where the derived key has 32 bytes and
  -- the IV 16, is what `DecryptCipherText` gives under the same password.
  pub decrypt-new_cipher_text :
      length iv ≡ 16
      → IsBytes text
      → (ct : ScryptText) × (new_cipher_text S (ok salt) (ok iv) text password ≡ ok ct)
        × (decrypt_cipher_text S ct password ≡ ok text)
  unfolding new_cipher_text decrypt_cipher_text
  decrypt-new_cipher_text iv_fits text_bytes =
      let (inner, e, v, d) =
        ctr_decrypt-encrypt S.ciphers key iv text key_fits iv_fits text_bytes in
      (
        record {
          cipher_text = inner;
          scrypt_key = record { n = 16384; r = 8; p = 1; key_len = 32; salt = salt; key = key };
          version = 1;
        },
        ground arith,
        ground (arith, take-length key 32 key_fits),
      )

  -- Where the key is derived, with 32 bytes, but no random bytes can be read for the IV,
  -- `NewCipherText` reports no error, and what it returns cannot be decrypted.
  pub new_cipher_text-no_iv :
      (e : ℕ)
      → (ct : ScryptText) × (new_cipher_text S (ok salt) (err (random_failed e)) text password
          ≡ ok ct)
        × (decrypt_cipher_text S ct password ≡ err (aes (unknown_version 0)))
  unfolding new_cipher_text decrypt_cipher_text ctr_encrypt ctr_decrypt
  new_cipher_text-no_iv e = (
    record {
      cipher_text = record { iv = []; cipher_text = []; mac = []; version = 0 };
      scrypt_key = record { n = 16384; r = 8; p = 1; key_len = 32; salt = salt; key = key };
      version = 1;
    },
    ground arith,
    ground (arith, take-length key 32 key_fits),
  )
