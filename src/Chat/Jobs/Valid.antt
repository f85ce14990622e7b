-- ===== src/Chat/Jobs/Valid.antt =====
-- The jobs that the chat adds to the queue, and what the processor does with one.
use panthalassa.Base.{
  ℕ, ◌≡◌, String, inl, inr, false, Option, none, some, arith, Bytes, length, nat_beq, lookup,
  string_eq, ◌==◌, Result, ok, Result-cases, Bool-cases,
}
use panthalassa.Db.Vault.{DbError}
use panthalassa.Db.Message.{Message}
use panthalassa.Db.ChatMessages.{PersistedEvent}
use panthalassa.Queue.{Job}
use panthalassa.Chat.{ChatError}
use panthalassa.Chat.Jobs.{
  JobData, JobFormats, submit_type, job_to_data, valid_job, message_of, send_then_delete, process,
  job_for, handle_persisted_message,
}

module _ (F : JobFormats) where
  -- A persisted message that was not received, of a partner with a key of 32 bytes and under a
  -- database key other than 0, makes `handlePersistedMessage` add a job that `ValidJob` accepts
  -- and from which `jobToData` takes back that partner and that key.
  pub job_to_data-handle_persisted_message :
      (id : String) (e : PersistedEvent)
      → e.message.received ≡ false
      → length e.partner ≡ 32
      → nat_beq e.db_message_id 0 ≡ false
      → (j : Job JobData) × ((handle_persisted_message F id e).0 ≡ some j)
        × (valid_job F j ≡ ok tt)
        × (job_to_data F j ≡ ok (e.partner, e.db_message_id))
  unfolding handle_persisted_message job_for valid_job job_to_data lookup
  job_to_data-handle_persisted_message id e sent fits set =
      (job_for F id e, ground arith, ground arith, ground arith)

  module _ {S : Type 0} (send : Bytes → Message → S → Result ChatError (Unit {0}) × S)
      (delete : Job JobData → S → Result ChatError (Unit {0}) × S) where
    found_parts :
        (get_message : Bytes → ℕ → Result DbError (Option Message)) (j : Job JobData)
        (partner : Bytes) (m : Message)
        → message_of F get_message j ≡ ok (partner, m)
        → (message_id : ℕ) × (job_to_data F j ≡ ok (partner, message_id))
          × (get_message partner message_id ≡ ok (some m))
    unfolding message_of
    found_parts get_message j partner m h = elim (Bool-cases (submit_type == j.type)) [
      | inr wrong ↦ absurd (ground arith)
      | inl right ↦ elim (Result-cases (job_to_data F j)) [
        | inr (e, a) ↦ absurd (ground arith)
        | inl ((p, i), a) ↦ elim (Result-cases (get_message p i)) [
          | inr (e, b) ↦ absurd (ground arith)
          | inl (none, b) ↦ absurd (ground arith)
          | inl (some found, b) ↦ (i, ground arith, ground arith)
        ]
      ]
    ]

    -- `Process` returns no error only for a job that names a partner and the key of a stored
    -- message, which was then sent to that partner without an error, after which `DeleteJob` of
    -- this job returned none.
    pub process_sound :
        (get_message : Bytes → ℕ → Result DbError (Option Message)) (j : Job JobData) (s t : S)
        → process F send delete get_message j s ≡ (ok tt, t)
        → (partner : Bytes) × (message_id : ℕ) × (m : Message) × (u : S) × (job_to_data F j
            ≡ ok (partner, message_id))
          × (get_message partner message_id ≡ ok (some m))
          × (send partner m s ≡ (ok tt, u))
          × (delete j u ≡ (ok tt, t))
    unfolding process send_then_delete
    process_sound get_message j s t h = elim (Result-cases (message_of F get_message j)) [
      | inr (e, a) ↦ absurd (ground arith)
      | inl ((partner, m), a) ↦
          let (message_id, d, g) = found_parts get_message j partner m a in
          elim (Result-cases (send partner m s).0) [
            | inr (e, b) ↦ absurd (ground arith)
            | inl (tt, b) ↦
                (partner, message_id, m, (send partner m s).1, d, g, ground arith, ground arith)
          ]
    ]
