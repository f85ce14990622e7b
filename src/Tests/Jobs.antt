-- ===== src/Tests/Jobs.antt =====
-- Tests of the jobs of the chat.
use panthalassa.Base.{
  ℕ, ◌≡◌, refl, String, Bool, true, false, Option, none, some, [], ◌∷◌, Bytes, replicate, Result,
  ok, err,
}
use panthalassa.Db.Vault.{DbError}
use panthalassa.Db.Message.{Message}
use panthalassa.Db.ChatMessages.{PersistedEvent}
use panthalassa.Queue.{Job}
use panthalassa.Chat.{ChatError}
use panthalassa.Chat.Jobs.{
  JobData, JobFormats, public_key, int64, submit_type, db_message_id, partner_key, job_to_data,
  process,
}
use panthalassa.Chat.Jobs.Valid.{process_sound}
use panthalassa.Tests.Texts.{sample}

abbrev formats : JobFormats
formats = record { parse_int64 = λ n. ok 3; base64_decode = λ t. ok t; dapp_json = λ d. ok [] }

abbrev persisted_event : PersistedEvent
persisted_event = record {
  partner = replicate 32 1;
  message = record sample { received = false };
  db_message_id = 3000000000;
}

abbrev job : Job JobData
job = record {
  id = "1";
  type = submit_type;
  payload = (partner_key, public_key (replicate 32 1)) ∷ (db_message_id, int64 3000000000) ∷ [];
}

abbrev send : Bytes → Message → ℕ → Result ChatError (Unit {0}) × ℕ
send partner m s = (ok tt, 1)

abbrev delete : Job JobData → ℕ → Result ChatError (Unit {0}) × ℕ
delete j s = (ok tt, 2)

abbrev get_message : Bytes → ℕ → Result DbError (Option Message)
get_message partner id = ok (some sample)

process_sound_example :
    (partner : Bytes) × (message_id : ℕ) × (m : Message) × (u : ℕ) × (job_to_data formats job
      ≡ ok (partner, message_id))
    × (get_message partner message_id ≡ ok (some m))
    × (send partner m 0 ≡ (ok tt, u))
    × (delete job u ≡ (ok tt, 2))
unfolding process panthalassa.Base.lookup
process_sound_example = process_sound formats send delete get_message job 0 2 refl
