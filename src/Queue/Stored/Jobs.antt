-- ===== src/Queue/Stored/Jobs.antt =====
-- A persisted job is loaded at the next start.
use panthalassa.Base.{
  ◌≡◌, Option, none, some, List, [], ◌∷◌, String, arith, Bytes, bytes_beq, bytes_beq_iff, lookup,
  bytes_eq, if◌then◌else◌, Result, ok, >>=-eq-ok, Result-cases, inl, inr, ◌∙◌, refl, Bool-cases,
  ◌==◌,
}
use panthalassa.Bolt.{Transactions, Buckets, change, update-change}
use panthalassa.Queue.{Job, QueueError}
use panthalassa.Queue.Stored.{
  JobJson, created, persist_body, update_error, persist_job, delete_body, delete_job, decode_jobs,
  stored_jobs,
}

-- The job is one of the list.
pub data IsIn {Data : Type 0} (j : Job Data) : List (Job Data) → Type 0 where
  first : {js : List (Job Data)} → IsIn j (j ∷ js)
  later : {i : Job Data} {js : List (Job Data)} → IsIn j js → IsIn j (i ∷ js)

module _ {Data : Type 0} (T : Transactions QueueError) (B : Buckets QueueError)
    (J : JobJson Data) where
  update_error_ok :
      (f : Option B.Bucket → Result QueueError (Option B.Bucket)) (s t : Option B.Bucket)
      → update_error T B J f s ≡ (none, t)
      → f s ≡ ok t
  unfolding update_error change
  update_error_ok f s t h = ground (arith, update-change T f s)

  -- An entry that decodes is sent.
  IsIn-decode_jobs :
      (k raw : Bytes) (j : Job Data) (entries : List (Bytes × Bytes))
      → lookup k entries ≡ some raw
      → J.decode raw ≡ ok j
      → IsIn j (decode_jobs T B J entries)
  unfolding lookup decode_jobs
  IsIn-decode_jobs k raw j [] found decoded = absurd (ground arith)
  IsIn-decode_jobs k raw j ((i, r) ∷ rest) found decoded = elim (Bool-cases (i == k)) [
    | inl here ↦ let same : r ≡ raw = ground arith in rw (same, decode_jobs) (rw decoded first)
    | inr there ↦
        let more = IsIn-decode_jobs k raw j rest (ground arith) decoded in
        elim (Result-cases (J.decode r)) [
          | inl (i', e) ↦ rw (e, decode_jobs) (later more)
          | inr (x, e) ↦ rw (e, decode_jobs) more
        ]
  ]

  -- A job that `PersistJob` stored without an error, and whose JSON form reads back, is among those
  -- that `Map` sends.
  pub IsIn-persist_job :
      (j : Job Data) (raw : Bytes) (s t : Option B.Bucket)
      → J.marshal j ≡ ok raw
      → J.decode raw ≡ ok j
      → persist_job T B J j s ≡ (none, t)
      → IsIn j (stored_jobs T B J t)
  unfolding persist_job persist_body stored_jobs
  IsIn-persist_job j raw s t written decoded h =
      let body = update_error_ok (persist_body T B J j) s t h in
      let (raw', e, r) = >>=-eq-ok (J.marshal j) _ body in
      let (b, e', r') = >>=-eq-ok (B.put (J.id_bytes j.id) raw' (created T B J s)) _ r in
      let k = J.id_bytes j.id in
      let same : t ≡ some b = ground arith in
      rw same (
        IsIn-decode_jobs k raw j (B.entries b)
          (B.lookup-entries k b
            ∙ ground (arith, B.get-put k k raw' (created T B J s) b, (bytes_beq_iff k k).1 refl))
          decoded)

  -- The stored bytes under an id.
  unfoldable raw_job : Bytes → Option B.Bucket → Option Bytes
  unfolding created
  raw_job k s = B.get k (created T B J s)

  -- `DeleteJob` without an error leaves nothing under the id and every other job as it was.
  raw_job-delete_job :
      (id : String) (k : Bytes) (s t : Option B.Bucket)
      → delete_job T B J id s ≡ (none, t)
      → raw_job k t ≡ (if bytes_beq (J.id_bytes id) k then none else raw_job k s)
  unfolding delete_job delete_body raw_job
  raw_job-delete_job id k s t h =
      let body = update_error_ok (delete_body T B J id) s t h in
      let (b, e, r) = >>=-eq-ok (B.delete (J.id_bytes id) (created T B J s)) _ body in
      ground (arith, B.get-delete (J.id_bytes id) k (created T B J s) b e)
