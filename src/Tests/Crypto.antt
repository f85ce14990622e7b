-- ===== src/Tests/Crypto.antt =====
-- Tests of crypto, bip32 and the key store.
use panthalassa.Base.{
  none, ◌≡◌, refl, ◌⊎◌, [], ◌∷◌, ◌++◌, arith, Bytes, replicate, ok, bytes_beq, xor_stream,
}
use panthalassa.Crypto.Aes.{CipherText, ctr_encrypt, ctr_decrypt}
use panthalassa.Crypto.Aes.RoundTrip.{ctr_decrypt-encrypt}
use panthalassa.Crypto.Aes.Integrity.{ctr_decrypt-authentic}
use panthalassa.Crypto.Scrypt.{Scrypt}
use panthalassa.Tests.Texts.{ciphers}

abbrev key : Bytes
key = replicate 32 9

abbrev iv : Bytes
iv = replicate 16 3

abbrev text : Bytes
text = 104 ∷ 105 ∷ []

ctr_decrypt-encrypt_example :
    (ct : CipherText) × (ctr_encrypt ciphers (ok iv) text key ≡ ok ct)
    × (ct.version ≡ 2)
    × (ctr_decrypt ciphers ct key ≡ ok text)
ctr_decrypt-encrypt_example = ctr_decrypt-encrypt ciphers key iv text refl refl (omega arith)

-- A cipher text of version 1 with its MAC; in the test's ciphers that is the cipher text itself.
abbrev old_text : CipherText
old_text = record { iv = iv; cipher_text = text; mac = text; version = 1 }

ctr_decrypt-authentic_example :
    ((old_text.version ≡ 1) × (old_text.mac ≡ ciphers.hmac_sha256 key old_text.cipher_text))
    ⊎ ((old_text.version ≡ 2)
        × (old_text.mac
            ≡ ciphers.hmac_sha256 key ((old_text.cipher_text ++ old_text.iv) ++ (2 ∷ []))))
unfolding ctr_decrypt bytes_beq xor_stream
ctr_decrypt-authentic_example =
    ctr_decrypt-authentic ciphers old_text key {text = 109 ∷ 108 ∷ []} refl

abbrev scrypt : Scrypt
scrypt = record {
  ciphers = ciphers;
  derive_key = λ pw salt n r p len. ok key;
  past_end = λ short. none;
}
