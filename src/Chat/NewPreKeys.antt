-- ===== src/Chat/NewPreKeys.antt =====
-- chat/handler.go: the request of the backend for new one time pre keys. The key generation of x3dh
-- is a parameter, a function of the round of the loop, as are the random bytes of each encryption.
pub mod Published
use panthalassa.Base.{
  ℕ, zero, suc, Option, none, some, List, [], ◌∷◌, Bytes, nat_beq, leb, Result, ok, err, ◌>>=◌,
  ◌>>◌, map_err, if◌then◌else◌,
}
use panthalassa.Crypto.Aes.{AesError}
use panthalassa.KeyManager.{KeyManager}
use panthalassa.Bolt.{Transactions, Buckets}
use panthalassa.Identity.{Signing, zero_key, zero_time}
use panthalassa.Identity.PreKey.{PreKey, ProtoPreKey, sign, to_protobuf}
use panthalassa.Db.Vault.{Vault, DbError}
use panthalassa.Db.OneTimePreKeys.{KeyPair, put}
use panthalassa.Chat.{ChatError, too_many_pre_keys, persist_failed, sign_failed, foreign}

-- The loop that generates key pairs: `left` are still to come, `round` are done.
unfoldable pub generate : (ℕ → Result ℕ KeyPair) → ℕ → ℕ → Result ChatError (List KeyPair)
generate key_pair zero round = ok []
generate key_pair (suc left) round = do
  pair ← map_err foreign (key_pair round)
  rest ← generate key_pair left (suc round)
  ok (pair ∷ rest)

-- The random bytes that the rounds of `Put` read.
unfoldable pub with_random :
    (ℕ → Result AesError Bytes) → ℕ → List KeyPair → List (Result AesError Bytes × KeyPair)
with_random random round [] = []
with_random random round (pair ∷ rest) = (random round, pair) ∷ with_random random (suc round) rest

-- A pre key that holds nothing but the public key.
unfoldable pub unsigned : KeyPair → PreKey
unsigned pair = record {
  public_key = pair.public_key;
  private_key = zero_key;
  identity_public_key = zero_key;
  signature = [];
  time = zero_time;
}

module _ (S : Signing) (km : KeyManager) where
  unfoldable pub sign_one : KeyPair → Result ChatError ProtoPreKey
  unfolding unsigned
  sign_one pair = do
    signed ← map_err (λ e. sign_failed) (sign S km (unsigned pair))
    ok (to_protobuf signed)

  unfoldable pub sign_all : List KeyPair → Result ChatError (List ProtoPreKey)
  unfolding sign_one
  sign_all [] = ok []
  sign_all (pair ∷ rest) = do p ← sign_one pair; ps ← sign_all rest; ok (p ∷ ps)

  module _ (T : Transactions DbError) (B : Buckets DbError) (V : Vault)
      (key_pair : ℕ → Result ℕ KeyPair) (random : ℕ → Result AesError Bytes) where
    -- Storage and signature of the generated pairs: what was stored stays stored when a signature
    -- fails.
    unfoldable pub publish :
        List KeyPair
        → Option B.Bucket
        → Result ChatError (Option (List ProtoPreKey)) × Option B.Bucket
    unfolding sign_all
    publish pairs s =
        let stored = put T B V (with_random random 0 pairs) s in
        elim stored.0 [
          | err e ↦ (err persist_failed, stored.1)
          | ok u ↦ (do ps ← sign_all pairs; ok (some ps), stored.1)
        ]

    -- `oneTimePreKeysHandler`: no response means that the request is not its own.
    unfoldable pub one_time_pre_keys_handler :
        ℕ → Option B.Bucket → Result ChatError (Option (List ProtoPreKey)) × Option B.Bucket
    unfolding generate publish
    one_time_pre_keys_handler wanted s =
        if nat_beq wanted 0
        then (ok none, s)
        else if leb wanted 100
        then elim (generate key_pair wanted 0) [ err e ↦ (err e, s) | ok pairs ↦ publish pairs s ]
        else (err too_many_pre_keys, s)
