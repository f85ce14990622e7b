-- ===== src/Crypto/Aes.antt =====
-- crypto/aes: ctr.go, cfb.go and the cipher texts of utils.go. What Go's packages `crypto/aes`,
-- `crypto/cipher` and `crypto/hmac` compute is a parameter; what they promise is in `Ciphers`. The
-- bytes read from the random reader are an argument of the encryption.
pub mod RoundTrip
pub mod Integrity
use panthalassa.Base.{
  ℕ, ◌<◌, ◌≡◌, Bool, [], ◌∷◌, ◌++◌, Bytes, IsBytes, length, nat_beq, if◌then◌else◌, bytes_beq,
  xor_stream, Result, ok, err, ◌>>=◌, ◌>>◌, guard,
}

pub record Ciphers : Type 0 where
  pub hmac_sha256 : Bytes → Bytes → Bytes
  pub ctr_key_stream : Bytes → Bytes → ℕ → ℕ
  pub ctr_key_stream_byte : (key iv : Bytes) (i : ℕ) → ctr_key_stream key iv i < 256
  pub cfb_encrypt : Bytes → Bytes → Bytes → Bytes
  pub cfb_decrypt : Bytes → Bytes → Bytes → Bytes
  pub cfb_decrypt-encrypt :
      (key iv text : Bytes) → IsBytes text → cfb_decrypt key iv (cfb_encrypt key iv text) ≡ text

pub data AesError : Type 0 where
  key_size not_version_one not_version_two mac_error : AesError
  unknown_version : ℕ → AesError
  random_failed : ℕ → AesError
  iv_panic : AesError  -- `NewCTR` and `NewCFB…` panic at an IV that is not one block long

pub record CipherText : Type 0 where
  pub iv : Bytes
  pub cipher_text : Bytes
  pub mac : Bytes
  pub version : ℕ

-- `aes.NewCipher` accepts keys of 16, 24 and 32 bytes; a `Secret` has 32.
unfoldable pub new_cipher : Bytes → Result AesError (Unit {0})
new_cipher secret = guard (nat_beq (length secret) 32) key_size

module _ (C : Ciphers) where
  unfoldable pub v_one_mac : CipherText → Bytes → Result AesError Bytes
  v_one_mac ct secret =
      if nat_beq ct.version 1 then ok (C.hmac_sha256 secret ct.cipher_text) else err not_version_one

  unfoldable pub v_two_mac : CipherText → Bytes → Result AesError Bytes
  v_two_mac ct secret =
      if nat_beq ct.version 2
      then ok (C.hmac_sha256 secret ((ct.cipher_text ++ ct.iv) ++ (ct.version ∷ [])))
      else err not_version_two

  unfoldable pub valid_mac : CipherText → Bytes → Result AesError Bool
  unfolding v_one_mac v_two_mac
  valid_mac c s =
      if nat_beq c.version 1
      then (do mac ← v_one_mac c s; ok (bytes_beq c.mac mac))
      else if nat_beq c.version 2
      then (do mac ← v_two_mac c s; ok (bytes_beq c.mac mac))
      else err (unknown_version c.version)

  unfoldable pub check_iv : Bytes → Result AesError (Unit {0})
  check_iv iv = guard (nat_beq (length iv) 16) iv_panic

  unfoldable pub ctr_encrypt : Result AesError Bytes → Bytes → Bytes → Result AesError CipherText
  unfolding new_cipher check_iv v_two_mac
  ctr_encrypt random plain_text secret = do
    new_cipher secret
    iv ← random
    check_iv iv
    let ct : CipherText = record {
      iv = iv;
      cipher_text = xor_stream (C.ctr_key_stream secret iv) 0 plain_text;
      mac = [];
      version = 2;
    }
    mac ← v_two_mac ct secret
    ok (record ct { mac = mac })

  unfoldable pub ctr_decrypt : CipherText → Bytes → Result AesError Bytes
  unfolding new_cipher check_iv valid_mac
  ctr_decrypt ct key = do
    new_cipher key
    valid ← valid_mac ct key
    guard valid mac_error
    check_iv ct.iv
    ok (xor_stream (C.ctr_key_stream key ct.iv) 0 ct.cipher_text)

  unfoldable pub cfb_encrypt : Result AesError Bytes → Bytes → Bytes → Result AesError CipherText
  unfolding new_cipher check_iv v_one_mac
  cfb_encrypt random plain_text key = do
    new_cipher key
    iv ← random
    check_iv iv
    let ct : CipherText = record {
      iv = iv;
      cipher_text = C.cfb_encrypt key iv plain_text;
      mac = [];
      version = 1;
    }
    mac ← v_one_mac ct key
    ok (record ct { mac = mac })

  unfoldable pub cfb_decrypt : CipherText → Bytes → Result AesError Bytes
  unfolding new_cipher check_iv valid_mac
  cfb_decrypt ct key = do
    new_cipher key
    valid ← valid_mac ct key
    guard valid mac_error
    check_iv ct.iv
    ok (C.cfb_decrypt key ct.iv ct.cipher_text)
