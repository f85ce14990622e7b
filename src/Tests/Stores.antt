-- ===== src/Tests/Stores.antt =====
-- Tests of the pre keys, the message keys of the double ratchet and the stored jobs.
use panthalassa.Base.{
  ℕ, ◌≡◌, ◌⊎◌, refl, true, Option, none, some, [], ◌∷◌, arith, Bytes, replicate, ok, insert, ◌↔◌,
  lookup, nat_eq, Assoc, bytes_eq,
}
use panthalassa.Db.Vault.{DbError}
use panthalassa.Db.OneTimePreKeys.{KeyPair}
use panthalassa.Db.RatchetKeys.{delete_mk, delete_pk}
use panthalassa.Db.RatchetKeys
use panthalassa.Db.RatchetKeys.All.{all, lookup-all}
use panthalassa.Queue.{Job}
use panthalassa.Queue.Stored.{JobJson}
use panthalassa.Tests.Models.{transactions, buckets, nested, Pairs, Chats}
use panthalassa.Tests.Texts.{plain_vault}

abbrev pre_key : KeyPair
pre_key = record { public_key = 1 ∷ []; private_key = replicate 32 4 }

abbrev one_key : Option Pairs
one_key = some ((1 ∷ [], replicate 32 4) ∷ [])

abbrev ratchet : Bytes
ratchet = replicate 32 1

abbrev ratchet_keys : Option Chats
ratchet_keys = some ((ratchet, (3 ∷ 0 ∷ 0 ∷ 0 ∷ 0 ∷ 0 ∷ 0 ∷ 0 ∷ [], replicate 32 6) ∷ []) ∷ [])

abbrev read_keys : Assoc ℕ Bytes
read_keys = (3, replicate 32 6) ∷ []

lookup-all_example : (lookup 3 read_keys ≡ some (replicate 32 6)) ↔ (
    RatchetKeys.get (transactions DbError) buckets nested plain_vault ratchet 3 ratchet_keys
    ≡ (replicate 32 6, true))
unfolding lookup all panthalassa.Base.bytes_beq RatchetKeys.get RatchetKeys.get_view
    RatchetKeys.uint_to_bytes panthalassa.Base.little_endian panthalassa.Base.value_of_little
    panthalassa.Db.Vault.unseal panthalassa.Tests.Texts.plain_unmarshal
    panthalassa.Tests.Texts.plain_decrypt
lookup-all_example =
    lookup-all (transactions DbError) buckets nested plain_vault ratchet_keys ratchet read_keys 3
      (replicate 32 6) refl (omega arith)

abbrev mail : Job ℕ
mail = record { id = "1"; type = "mail"; payload = 5 }

abbrev mail_json : JobJson ℕ
mail_json = record {
  id_bytes = λ id. 49 ∷ [];
  marshal = λ j. ok (123 ∷ []);
  decode = λ raw. ok mail;
}

abbrev stored_mail : Option Pairs
stored_mail = some ((49 ∷ [], 123 ∷ []) ∷ [])
