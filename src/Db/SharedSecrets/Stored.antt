-- ===== src/Db/SharedSecrets/Stored.antt =====
-- Which shared secrets are found after `Put` and `Accept`.
use panthalassa.Base.{
  ◌≡◌, refl, Option, some, arith, Bytes, IsBytes, length, nat_beq, bytes_beq, bytes_beq_iff,
  if◌then◌else◌, Result, ok, err, map_err, Bool-cases, inl, inr,
}
use panthalassa.Crypto.Aes.{AesError, CipherText}
use panthalassa.Bolt.{Transactions, Buckets, Nested}
use panthalassa.Bolt.Within.{raw_at, raw_at-put_at, change_ok}
use panthalassa.Db.Vault.{Vault, DbError, json}
use panthalassa.Db.SharedSecrets.{
  SharedSecret, SecretJson, no_cipher_text, persisted, put_body, put, get, read_secret,
  decrypt_persisted_shared_secret,
}

module _ (T : Transactions DbError) (B : Buckets DbError) (N : Nested DbError B.Bucket B.empty)
    (V : Vault) (J : SecretJson) where
  put_ok :
      (random : Result AesError Bytes) (partner : Bytes) (ss : SharedSecret) (s t : Option N.Outer)
      → put T B N V J random partner ss s ≡ (ok tt, t)
      → (raw : Bytes) × (J.marshal (persisted V random ss) ≡ ok raw)
        × ((i m : Bytes)
            → raw_at B N i m t ≡ (
                if bytes_beq partner i
                then (if bytes_beq ss.base_id m then some raw else raw_at B N i m s)
                else raw_at B N i m s))
  unfolding put put_body
  put_ok random partner ss s t h = elim (Bool-cases (nat_beq (length ss.base_id) 32)) [
    | inr f ↦ absurd (ground arith)
    | inl fits ↦
        let (raw, e, at) =
          raw_at-put_at B N partner ss.base_id (map_err json (J.marshal (persisted V random ss))) s
            t (change_ok T (put_body T B N V J random partner ss) s t (rw fits at h)) in
        (raw, ground arith, at)
  ]

  module _ (random : Result AesError Bytes) (partner : Bytes) (ss : SharedSecret)
      (s t : Option N.Outer) (stored : put T B N V J random partner ss s ≡ (ok tt, t)) where
    -- After `Put` returned no error for a secret of 32 bytes whose encryption did not fail,
    -- `Get` finds that secret under its base id, and finds under every other id and for every
    -- other partner what it found before.
    pub get-put_secret :
        (ct : CipherText)
        → IsBytes ss.x3dh_ss
        → length ss.x3dh_ss ≡ 32
        → V.encrypt random ss.x3dh_ss ≡ ok ct
        → (i m : Bytes)
        → get T B N V J i m t ≡ (
            if bytes_beq partner i
            then (if bytes_beq ss.base_id m then ok (some ss) else get T B N V J i m s)
            else get T B N V J i m s)
    unfolding get read_secret persisted decrypt_persisted_shared_secret
    get-put_secret ct bytes fits sealed i m =
        let (raw, e, at) = put_ok random partner ss s t stored in
        ground (
          arith,
          at i m,
          J.unmarshal-marshal (persisted V random ss) raw,
          V.decrypt-encrypt random ss.x3dh_ss ct bytes,
        )

    -- A secret whose encryption failed is stored all the same, without the secret: where the empty
    -- cipher text does not decrypt, `Get` fails from then on.
    pub get-put_unencrypted :
        (e d : DbError)
        → V.encrypt random ss.x3dh_ss ≡ err e
        → V.decrypt no_cipher_text ≡ err d
        → get T B N V J partner ss.base_id t ≡ err d
    unfolding get read_secret persisted decrypt_persisted_shared_secret
    get-put_unencrypted e d failed opened =
        let (raw, m, at) = put_ok random partner ss s t stored in
        ground (
          arith,
          at partner ss.base_id,
          J.unmarshal-marshal (persisted V random ss) raw,
          (bytes_beq_iff partner partner).1 refl,
          (bytes_beq_iff ss.base_id ss.base_id).1 refl,
        )
