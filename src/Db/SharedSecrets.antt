-- ===== src/Db/SharedSecrets.antt =====
-- db/shared_secret_storage.go: the shared secrets of each chat partner, under the base id that the
-- initiator of the chat chose. The JSON form of a persisted secret and `sort.Slice` are parameters.
pub mod Stored
pub mod Youngest
use mathlib.Core.List.{Mem, Perm}
use panthalassa.Base.{
  ℕ, ◌≡◌, Bool, true, false, Option, none, some, List, [], ◌∷◌, Bytes, length, nat_beq, bytes_beq,
  Result, ok, err, ◌>>=◌, ◌>>◌, guard, map_err, if◌then◌else◌,
}
use panthalassa.Crypto.Aes.{AesError, CipherText}
use panthalassa.Bolt.{Transactions, Buckets, Nested, change}
use panthalassa.Bolt.Within.{raw_at, entries_at, put_at}
use panthalassa.Db.Vault.{Vault, DbError, json, not_32_bytes, invalid_base_id}
use panthalassa.Identity.{Time, after, zero_key}

pub record SharedSecret : Type 0 where
  pub x3dh_ss : Bytes
  pub accepted : Bool
  pub created_at : Time
  pub destroy_at : Option Time
  pub ephemeral_key : Bytes
  pub ephemeral_key_signature : Bytes
  pub used_signed_pre_key : Bytes
  pub used_one_time_pre_key : Option Bytes
  pub base_id : Bytes
  pub id : Bytes
  pub id_init_params : Bytes

pub record PersistedSharedSecret : Type 0 where
  pub shared_secret : SharedSecret
  pub x3dh_ss : CipherText

-- Go's `encoding/json` for a persisted secret: the plain secret of the embedded record is not
-- written, and is the zero key when it is read.
pub record SecretJson : Type 0 where
  pub marshal : PersistedSharedSecret → Result ℕ Bytes
  pub unmarshal : Bytes → Result ℕ PersistedSharedSecret
  pub unmarshal-marshal :
      (p : PersistedSharedSecret) (raw : Bytes)
      → marshal p ≡ ok raw
      → unmarshal raw
        ≡ ok (record p { shared_secret = record p.shared_secret { x3dh_ss = zero_key } })

-- `sort.Slice` by the order of `GetYoungest`: the elements are those of the slice, and none comes
-- before the first one.
pub record Sorting : Type 1 where
  pub sort : List PersistedSharedSecret → List PersistedSharedSecret
  pub Perm-sort : (ps : List PersistedSharedSecret) → Perm (sort ps) ps
  pub sorted :
      (ps rest : List PersistedSharedSecret) (p q : PersistedSharedSecret)
      → sort ps ≡ p ∷ rest
      → Mem q (p ∷ rest)
      → after q.shared_secret.created_at p.shared_secret.created_at ≡ false

-- The zero value of `aes.CipherText`.
abbrev pub no_cipher_text : CipherText
no_cipher_text = record { iv = []; cipher_text = []; mac = []; version = 0 }

module _ (V : Vault) where
  unfoldable pub decrypt_persisted_shared_secret :
      PersistedSharedSecret → Result DbError SharedSecret
  decrypt_persisted_shared_secret p = do
    plain ← V.decrypt p.x3dh_ss
    guard (nat_beq (length plain) 32) not_32_bytes
    ok (record p.shared_secret { x3dh_ss = plain })

  -- What `Put` makes of a secret; the error of `AESEncrypt` is overwritten by that of `Marshal`.
  unfoldable pub persisted : Result AesError Bytes → SharedSecret → PersistedSharedSecret
  persisted random ss = record {
    shared_secret = ss;
    x3dh_ss = elim (V.encrypt random ss.x3dh_ss) [ ok ct ↦ ct | err e ↦ no_cipher_text ];
  }

module _ (T : Transactions DbError) (B : Buckets DbError) (N : Nested DbError B.Bucket B.empty)
    (V : Vault) (J : SecretJson) where
  -- `Stats().KeyN != 0`
  unfoldable pub has_any : Bytes → Option N.Outer → Bool
  has_any partner s = elim (entries_at B N partner s) [ [] ↦ false | e ∷ es ↦ true ]

  unfoldable pub unmarshal_all : List (Bytes × Bytes) → Result DbError (List PersistedSharedSecret)
  unmarshal_all [] = ok []
  unmarshal_all ((k, v) ∷ es) = do
    p ← map_err json (J.unmarshal v)
    ps ← unmarshal_all es
    ok (p ∷ ps)

  unfoldable pub decrypt_first : List PersistedSharedSecret → Result DbError (Option SharedSecret)
  unfolding decrypt_persisted_shared_secret
  decrypt_first [] = ok none
  decrypt_first (p ∷ ps) = do ss ← decrypt_persisted_shared_secret V p; ok (some ss)

  unfoldable pub get_youngest :
      Sorting → Bytes → Option N.Outer → Result DbError (Option SharedSecret)
  unfolding unmarshal_all decrypt_first
  get_youngest Q partner s = do
    secrets ← unmarshal_all (entries_at B N partner s)
    decrypt_first (Q.sort secrets)

  unfoldable pub put_body :
      Result AesError Bytes
      → Bytes
      → SharedSecret
      → Option N.Outer
      → Result DbError (Option N.Outer)
  unfolding persisted
  put_body random partner ss =
      put_at B N partner ss.base_id (map_err json (J.marshal (persisted V random ss)))

  unfoldable pub put :
      Result AesError Bytes
      → Bytes
      → SharedSecret
      → Option N.Outer
      → Result DbError (Unit {0}) × Option N.Outer
  put random partner ss s =
      if nat_beq (length ss.base_id) 32
      then T.update (Option N.Outer) (Unit {0}) (change (put_body random partner ss)) s
      else (err invalid_base_id, s)

  -- `Accept`, which also sets the flag of the secret that it is given.
  unfoldable pub accept :
      Result AesError Bytes
      → Bytes
      → SharedSecret
      → Option N.Outer
      → Result DbError (Unit {0}) × Option N.Outer
  accept random partner ss s = put random partner (record ss { accepted = true }) s

  -- `Get` of a value that was found: one that is not JSON is taken as missing.
  unfoldable pub read_secret : Bytes → Result DbError (Option SharedSecret)
  unfolding decrypt_persisted_shared_secret
  read_secret raw = elim (J.unmarshal raw) [
    | err e ↦ ok none
    | ok p ↦ do ss ← decrypt_persisted_shared_secret V p; ok (some ss)
  ]

  unfoldable pub get : Bytes → Bytes → Option N.Outer → Result DbError (Option SharedSecret)
  unfolding read_secret
  get partner id s = elim (raw_at B N partner id s) [ none ↦ ok none | some raw ↦ read_secret raw ]

  -- The loop of `SecretForChatInitMsg`: the last of the secrets with the given id is kept.
  unfoldable pub secret_among :
      Bytes
      → Bytes
      → Option N.Outer
      → List (Bytes × Bytes)
      → Option SharedSecret
      → Result DbError (Option SharedSecret)
  unfolding get
  secret_among partner init_id s [] found = ok found
  secret_among partner init_id s ((k, raw) ∷ es) found = do
    p ← map_err json (J.unmarshal raw)
    here ←
        (if bytes_beq p.shared_secret.id_init_params init_id
          then get partner p.shared_secret.base_id s
          else ok found)
    secret_among partner init_id s es here

  unfoldable pub secret_for_chat_init_msg :
      Bytes → Bytes → Option N.Outer → Result DbError (Option SharedSecret)
  unfolding secret_among
  secret_for_chat_init_msg partner init_id s =
      secret_among partner init_id s (entries_at B N partner s) none
