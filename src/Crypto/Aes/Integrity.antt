-- ===== src/Crypto/Aes/Integrity.antt =====
-- What the MAC of a cipher text protects.
use panthalassa.Base.{◌≡◌, ◌⊎◌, true, [], ◌∷◌, ◌++◌, arith, Bytes, length, bytes_beq_iff, ok, err}
use panthalassa.Crypto.Aes.{Ciphers, CipherText, valid_mac, ctr_decrypt, iv_panic}

module _ (C : Ciphers) (ct : CipherText) (key : Bytes) where
  -- A cipher text that `CTRDecrypt` accepts carries the MAC of its version under the key: over the
  -- cipher text alone for version 1, over the cipher text, the IV and the version for version 2.
  -- No other version is accepted.
  pub ctr_decrypt-authentic :
      {text : Bytes}
      → ctr_decrypt C ct key ≡ ok text
      → ((ct.version ≡ 1) × (ct.mac ≡ C.hmac_sha256 key ct.cipher_text))
        ⊎ ((ct.version ≡ 2) × (ct.mac ≡ C.hmac_sha256 key ((ct.cipher_text ++ ct.iv) ++ (2 ∷ []))))
  unfolding ctr_decrypt
  ctr_decrypt-authentic h = ground (
    arith,
    bytes_beq_iff ct.mac (C.hmac_sha256 key ct.cipher_text),
    bytes_beq_iff ct.mac (C.hmac_sha256 key ((ct.cipher_text ++ ct.iv) ++ (ct.version ∷ []))),
  )

  -- The IV is not covered by the MAC of version 1: with another IV a cipher text of version 1
  -- whose MAC is valid has as valid a MAC as before, and with an IV that is not 16 bytes long
  -- `CTRDecrypt` under that key of 32 bytes panics.
  pub valid_mac-iv :
      (iv : Bytes)
      → ct.version ≡ 1
      → length key ≡ 32
      → valid_mac C ct key ≡ ok true
      → (valid_mac C (record ct { iv = iv }) key ≡ ok true)
        × ((length iv ≡ 16) ⊎ (ctr_decrypt C (record ct { iv = iv }) key ≡ err iv_panic))
  unfolding ctr_decrypt valid_mac
  valid_mac-iv iv v k h = ground arith
