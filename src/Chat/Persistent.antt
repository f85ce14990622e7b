-- ===== src/Chat/Persistent.antt =====
-- The storages of db keep the laws that the chat relies on.
use panthalassa.Base.{
  ◌≡◌, refl, inl, inr, true, Option, some, arith, Bytes, IsBytes, length, bytes_beq_iff, Result, ok,
  err,
}
use panthalassa.Crypto.Aes.{AesError, CipherText}
use panthalassa.Bolt.{Transactions, Buckets, Nested}
use panthalassa.Db.Vault.{Vault, DbError}
use panthalassa.Db.Message.{Message, status_persisted}
use panthalassa.Db.OneTimePreKeys
use panthalassa.Db.OneTimePreKeys.CutOnce.{cut_again}
use panthalassa.Db.SignedPreKeys
use panthalassa.Db.SignedPreKeys.{SignedPreKeyJson}
use panthalassa.Db.SharedSecrets
use panthalassa.Db.SharedSecrets.{SharedSecret, SecretJson}
use panthalassa.Db.SharedSecrets.Stored.{get-put_secret}
use panthalassa.Db.ChatMessages
use panthalassa.Db.ChatMessages.{MessageJson, PersistedEvent}
use panthalassa.Db.ChatMessages.Stored.{persist_message_safe}
use panthalassa.Chat.Storages.{Storages}

module _ (T : Transactions DbError) (B : Buckets DbError) (N : Nested DbError B.Bucket B.empty)
    (V : Vault) (Q : SignedPreKeyJson) (J : SecretJson) (M : MessageJson) where
  -- `PersistReceivedMessage`, without the event of its listeners.
  unfoldable pub persist :
      Result AesError Bytes
      → Bytes
      → Message
      → Option N.Outer
      → Result DbError (Unit {0}) × Option N.Outer
  persist random partner m s =
      let r = ChatMessages.persist_received_message T B N V M random partner m s in
      (elim r.0 [ ok event ↦ ok tt | err e ↦ err e ], r.1)

  pub persist_rollback :
      (random : Result AesError Bytes) (partner : Bytes) (m : Message) (s t : Option N.Outer)
      (e : DbError)
      → persist random partner m s ≡ (err e, t)
      → t ≡ s
  unfolding persist ChatMessages.persist_received_message
  persist_rollback random partner m s t e h =
      elim (persist_message_safe T B N V M random partner
        (record m { status = status_persisted; received = true }) s) [
          | inl (event, u, done, valid) ↦ absurd (ground arith)
          | inr (x, failed) ↦ ground arith
        ]

  -- Random bytes with which no encryption fails.
  abbrev pub GoodSource : Type 0
  GoodSource =
      (random : Result AesError Bytes) × ((text : Bytes)
        → (ct : CipherText) × (V.encrypt random text ≡ ok ct))

  pub secret_found :
      (random : GoodSource) (partner : Bytes) (ss : SharedSecret) (s t : Option N.Outer)
      → IsBytes ss.x3dh_ss
      → length ss.x3dh_ss ≡ 32
      → SharedSecrets.put T B N V J random.0 partner ss s ≡ (ok tt, t)
      → SharedSecrets.get T B N V J partner ss.base_id t ≡ ok (some ss)
  secret_found (random, encrypts) partner ss s t bytes fits h =
      let (ct, e) = encrypts ss.x3dh_ss in
      ground (
        arith,
        get-put_secret T B N V J random partner ss s t h ct bytes fits e partner ss.base_id,
        (bytes_beq_iff partner partner).1 refl,
        (bytes_beq_iff ss.base_id ss.base_id).1 refl,
      )

  -- The storages over bbolt.
  abbrev pub bolt_storages : Storages
  bolt_storages = record {
    Source = GoodSource;
    OneTimeKeys = Option B.Bucket;
    SignedKeys = Option B.Bucket;
    Secrets = Option N.Outer;
    Messages = Option N.Outer;
    cut = OneTimePreKeys.cut T B V;
    get_signed_pre_key = SignedPreKeys.get T B V Q;
    all_signed_pre_keys = SignedPreKeys.all T B V Q;
    get_secret = SharedSecrets.get T B N V J;
    put_secret = λ random. SharedSecrets.put T B N V J random.0;
    persist_received = λ random. persist random.0;
    cut_once = cut_again T B V;
    get-put = secret_found;
    persist_rollback = λ random. persist_rollback random.0;
  }
