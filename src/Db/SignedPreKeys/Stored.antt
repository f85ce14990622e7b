-- ===== src/Db/SignedPreKeys/Stored.antt =====
-- Which signed pre keys are found after `Put`.
use panthalassa.Base.{
  ℕ, ◌≡◌, refl, Option, none, some, arith, Bytes, bytes_beq, if◌then◌else◌, Result, ok, >>=-eq-ok,
  map_err,
}
use panthalassa.Crypto.Aes.{AesError}
use panthalassa.Bolt.{Transactions, Buckets}
use panthalassa.Bolt.Within.{change_ok}
use panthalassa.Db.Vault.{Vault, DbError, json, seal, unseal-seal}
use panthalassa.Db.OneTimePreKeys.{KeyPair}
use panthalassa.Db.SignedPreKeys.{
  SignedPreKey, SignedPreKeyJson, created, put_body, put, read_signed_pre_key, get_signed_pre_key,
  get,
}

module _ (T : Transactions DbError) (B : Buckets DbError) (V : Vault) (J : SignedPreKeyJson) where
  get_created :
      (k : Bytes) (s : Option B.Bucket) → get T B V J k (some (created T B V J s)) ≡ get T B V J k s
  unfolding get get_signed_pre_key created
  get_created k none = ground (arith, B.get-empty k)
  get_created k (some b) = refl

  -- After `Put` without an error, `Get` returns the private key that was stored last under a public
  -- key, and answers for every other public key as before.
  pub get-put_pair :
      (random : Result AesError Bytes) (valid_till : ℕ) (pair : KeyPair) (s t : Option B.Bucket)
      → put T B V J random valid_till pair s ≡ (ok tt, t)
      → (k : Bytes)
      → get T B V J k t
        ≡ (if bytes_beq pair.public_key k then ok pair.private_key else get T B V J k s)
  unfolding put put_body
  get-put_pair random valid_till pair s t h k =
      let key : SignedPreKey = record {
        valid_till = valid_till;
        private_key = pair.private_key;
        public_key = pair.public_key;
        version = 1;
      } in
      let body = change_ok T (put_body T B V J random valid_till pair) s t h in
      let (text, e1, r1) = >>=-eq-ok (map_err json (J.marshal key)) _ body in
      let (raw, e2, r2) = >>=-eq-ok (seal V random text) _ r1 in
      let (b, e3, r3) = >>=-eq-ok (B.put pair.public_key raw (created T B V J s)) _ r2 in
      let marshaled : J.marshal key ≡ ok text = ground arith in
      let opened = unseal-seal V random text raw (J.marshal_bytes key text marshaled) e2 in
      let read : get T B V J k (some b) ≡ (
          if bytes_beq pair.public_key k
          then ok pair.private_key
          else get T B V J k (some (created T B V J s))) =
        unfold get get_signed_pre_key read_signed_pre_key in
        ground (
          arith,
          B.get-put pair.public_key k raw (created T B V J s) b,
          J.unmarshal-marshal key text,
        ) in
      ground (arith, get_created k s)
