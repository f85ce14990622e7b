-- ===== src/Tests/Messages.antt =====
-- Tests of the stored messages.
use mathlib.Core.List.{Perm, reverse}
use mathlib.Core.List.Perm
use panthalassa.Base.{
  length, ◌<◌, ◌≡◌, ◌⊎◌, ◌↔◌, refl, Option, none, some, [], ◌∷◌, arith, Bytes, ok, err, inr, List,
  ℕ, take, lookup, insert, uint64, put_uint64,
}
use panthalassa.Db.Vault.{DbError, seal}
use panthalassa.Db.Message.{Message, valid_message}
use panthalassa.Db.ChatMessages.{
  PersistedEvent, persist_message, get_message, persist_update, find_key,
}
use panthalassa.Db.ChatMessages.Persist.{slot}
use panthalassa.Db.ChatMessages.Stored.{get-persist_message}
use panthalassa.Db.ChatMessages.Pages.{messages, read_all}
use panthalassa.Db.ChatMessages.Pages.Last.{Entries, IsPage, IsNowhere, messages-IsPage}
use panthalassa.Tests.Models.{
  transactions, buckets, nested, Pairs, Chats, run_update, create_chat, put_pair,
}
use panthalassa.Tests.Texts.{
  plain_vault, message_json, sample, sample_marshal, plain_encrypt, plain_marshal,
}

abbrev alice : Bytes
alice = 1 ∷ []

abbrev saved : Pairs
saved = (0 ∷ 0 ∷ 0 ∷ 0 ∷ 178 ∷ 208 ∷ 94 ∷ 0 ∷ [], 1 ∷ []) ∷ []

abbrev chats : Option Chats
chats = some ((alice, saved) ∷ [])

abbrev event : PersistedEvent
event = record { partner = alice; message = sample; db_message_id = 3000000000 }

persisted :
    persist_message
      (transactions DbError)
      buckets
      nested
      plain_vault
      message_json
      (ok [])
      alice
      sample
      none
    ≡ (ok event, chats)
unfolding persist_message persist_update valid_message run_update create_chat lookup sample_marshal
    uint64 find_key insert put_uint64 seal plain_encrypt plain_marshal put_pair
persisted = refl

get-persist_message_example :
    (3000000000
      ≡ slot (transactions DbError) buckets nested plain_vault message_json alice 3000000000 none)
    × (sample ≡ record sample {
      version = 1;
      database_id =
          slot (transactions DbError) buckets nested plain_vault message_json alice 3000000000 none;
    })
    × (get_message
          (transactions DbError)
          buckets
          nested
          plain_vault
          message_json
          alice
          3000000000
          chats
        ≡ ok (some sample))
get-persist_message_example =
    get-persist_message (transactions DbError) buckets nested plain_vault message_json (ok []) alice
      sample none (omega arith) event chats persisted

abbrev unsorted : List Message → List Message
unsorted ms = ms

messages-IsPage_example :
    (read : List Message) × Perm (sample ∷ []) read
    × (((page : Entries) × IsPage 0 5 saved page
          × (0 < length page)
          × (read_all (transactions DbError) buckets nested plain_vault message_json (reverse page)
              ≡ ok read))
        ⊎ (IsNowhere 0 saved
            × (read_all
                  (transactions DbError)
                  buckets
                  nested
                  plain_vault
                  message_json
                  (([], []) ∷ [])
                ≡ ok read)))
unfolding messages lookup panthalassa.Base.bytes_beq panthalassa.Db.ChatMessages.read_message
    panthalassa.Db.Vault.unseal panthalassa.Tests.Texts.plain_unmarshal
    panthalassa.Tests.Texts.plain_decrypt panthalassa.Tests.Texts.sample_unmarshal
messages-IsPage_example =
    messages-IsPage (transactions DbError) buckets nested plain_vault message_json unsorted
      (λ ms. Perm.refl ms) alice 0 5 ((alice, saved) ∷ []) saved (sample ∷ []) refl refl
