-- ===== src/Crypto/Aes/RoundTrip.antt =====
-- What ctr.go and cfb.go encrypt, they decrypt.
use panthalassa.Base.{
  ◌≡◌, true, [], ◌∷◌, ◌++◌, arith, Bytes, IsBytes, length, bytes_beq, bytes_beq_iff, xor_stream,
  xor_stream_twice, ok, refl,
}
use panthalassa.Crypto.Aes.{Ciphers, CipherText, ctr_encrypt, ctr_decrypt, cfb_encrypt, cfb_decrypt}

bytes_beq_refl : (b : Bytes) → bytes_beq b b ≡ true
bytes_beq_refl b = (bytes_beq_iff b b).1 refl

module _ (C : Ciphers) (key iv text : Bytes) (key_fits : length key ≡ 32) (iv_fits : length iv ≡ 16)
    (text_bytes : IsBytes text) where
  -- With a key of 32 bytes and 16 random bytes, `CTREncrypt` gives a cipher text of version 2 that
  -- `CTRDecrypt` takes back to the plain text.
  pub ctr_decrypt-encrypt :
      (ct : CipherText) × (ctr_encrypt C (ok iv) text key ≡ ok ct)
      × (ct.version ≡ 2)
      × (ctr_decrypt C ct key ≡ ok text)
  unfolding ctr_encrypt ctr_decrypt
  ctr_decrypt-encrypt =
      let hidden = xor_stream (C.ctr_key_stream key iv) 0 text in
      let mac = C.hmac_sha256 key ((hidden ++ iv) ++ (2 ∷ [])) in
      (
        record { iv = iv; cipher_text = hidden; mac = mac; version = 2 },
        ground arith,
        refl,
        ground (
          arith,
          bytes_beq_refl mac,
          xor_stream_twice (C.ctr_key_stream key iv) 0 text (C.ctr_key_stream_byte key iv)
              text_bytes,
        ),
      )

  -- With a key of 32 bytes and 16 random bytes, the deprecated `CFBEncrypt` gives a cipher text
  -- of version 1 that `CFBDecrypt` takes back to the plain text.
  cfb_decrypt-encrypt :
      (ct : CipherText) × (cfb_encrypt C (ok iv) text key ≡ ok ct)
      × (ct.version ≡ 1)
      × (cfb_decrypt C ct key ≡ ok text)
  unfolding cfb_encrypt cfb_decrypt
  cfb_decrypt-encrypt =
      let hidden = C.cfb_encrypt key iv text in
      let mac = C.hmac_sha256 key hidden in
      (
        record { iv = iv; cipher_text = hidden; mac = mac; version = 1 },
        ground arith,
        refl,
        ground (arith, bytes_beq_refl mac, C.cfb_decrypt-encrypt key iv text text_bytes),
      )
