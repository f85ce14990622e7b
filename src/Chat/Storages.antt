-- ===== src/Chat/Storages.antt =====
-- What the chat relies on of the storages of db: the interfaces `SharedSecretStorage`,
-- `OneTimePreKeyStorage`, `SignedPreKeyStorage` and `ChatMessageStorage`, with their laws.
use panthalassa.Base.{
  ◌≡◌, Option, none, some, List, Bytes, IsBytes, length, Result, ok, err, map_err,
}
use panthalassa.Db.Vault.{DbError}
use panthalassa.Db.Message.{Message}
use panthalassa.Db.OneTimePreKeys.{KeyPair}
use panthalassa.Db.SharedSecrets.{SharedSecret}
use panthalassa.Chat.{ChatError, db, Protocols}
use panthalassa.Chat.Actions.{Action}

-- `Source` stands for the random bytes that an encryption reads, where it then does not fail.
pub record Storages : Type 1 where
  pub Source : Type 0
  pub OneTimeKeys : Type 0
  pub SignedKeys : Type 0
  pub Secrets : Type 0
  pub Messages : Type 0
  pub cut : Bytes → OneTimeKeys → Result DbError (Option Bytes) × OneTimeKeys
  pub get_signed_pre_key : Bytes → SignedKeys → Result DbError Bytes
  pub all_signed_pre_keys : SignedKeys → List KeyPair
  pub get_secret : Bytes → Bytes → Secrets → Result DbError (Option SharedSecret)
  pub put_secret : Source → Bytes → SharedSecret → Secrets → Result DbError (Unit {0}) × Secrets
  pub persist_received : Source → Bytes → Message → Messages → Result DbError (Unit {0}) × Messages
  -- A key that was handed out is not handed out again.
  pub cut_once :
      (key : Bytes) (s t : OneTimeKeys) (found : Option Bytes)
      → cut key s ≡ (ok found, t)
      → (cut key t).0 ≡ ok none
  -- A secret that was put is found.
  pub get-put :
      (random : Source) (partner : Bytes) (ss : SharedSecret) (s t : Secrets)
      → IsBytes ss.x3dh_ss
      → length ss.x3dh_ss ≡ 32
      → put_secret random partner ss s ≡ (ok tt, t)
      → get_secret partner ss.base_id t ≡ ok (some ss)
  -- What fails to be stored changes nothing.
  pub persist_rollback :
      (random : Source) (partner : Bytes) (m : Message) (s t : Messages) (e : DbError)
      → persist_received random partner m s ≡ (err e, t)
      → t ≡ s

-- The random bytes that are read while a message is handled.
pub record Random (X : Storages) : Type 0 where
  pub for_secret : X.Source
  pub for_message : X.Source

module _ (X : Storages) (P : Protocols) where
  pub record State : Type 0 where
    pub one_time_keys : X.OneTimeKeys
    pub signed_keys : X.SignedKeys
    pub secrets : X.Secrets
    pub messages : X.Messages
    pub ratchet_keys : P.RatchetKeys

  -- An operation of one storage, as a step of the chat.
  abbrev pub on_one_time_keys :
      {A : Type 0} → (X.OneTimeKeys → Result DbError A × X.OneTimeKeys) → Action State A
  on_one_time_keys f s =
      (map_err db (f s.one_time_keys).0, record s { one_time_keys = (f s.one_time_keys).1 })

  abbrev pub on_secrets : {A : Type 0} → (X.Secrets → Result DbError A × X.Secrets) → Action State A
  on_secrets f s = (map_err db (f s.secrets).0, record s { secrets = (f s.secrets).1 })

  abbrev pub on_messages :
      {A : Type 0} → (X.Messages → Result DbError A × X.Messages) → Action State A
  on_messages f s = (map_err db (f s.messages).0, record s { messages = (f s.messages).1 })

  -- A read of the state.
  abbrev pub reading : {A : Type 0} → (State → Result ChatError A) → Action State A
  reading f s = (f s, s)
