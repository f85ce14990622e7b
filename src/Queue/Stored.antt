-- ===== src/Queue/Stored.antt =====
-- queue/bolt_queue_storage.go: the storage that the program gives the queue. The state is the bucket
-- of the jobs, `none` while it has not been created; the key of a job is the text of its id.
pub mod Jobs
use panthalassa.Base.{Option, none, some, List, [], ◌∷◌, String, Bytes, Result, ok, err, ◌>>=◌}
use panthalassa.Bolt.{Transactions, Buckets, change}
use panthalassa.Queue.{Job, QueueError, Storage}

-- Go's `encoding/json` for the type `Job`, and the bytes of an id. A job whose data has a number does
-- not read back as it was: the decoder gives numbers as texts.
pub record JobJson (Data : Type 0) : Type 0 where
  pub id_bytes : String → Bytes
  pub marshal : Job Data → Result QueueError Bytes
  pub decode : Bytes → Result QueueError (Job Data)

module _ {Data : Type 0} (T : Transactions QueueError) (B : Buckets QueueError)
    (J : JobJson Data) where
  unfoldable pub created : Option B.Bucket → B.Bucket
  created none = B.empty
  created (some b) = b

  unfoldable pub persist_body : Job Data → Option B.Bucket → Result QueueError (Option B.Bucket)
  unfolding created
  persist_body j s = do raw ← J.marshal j; b ← B.put (J.id_bytes j.id) raw (created s); ok (some b)

  -- The error of an update and the state that it leaves.
  unfoldable pub update_error :
      (Option B.Bucket → Result QueueError (Option B.Bucket))
      → Option B.Bucket
      → Option QueueError × Option B.Bucket
  update_error f s =
      let r = T.update (Option B.Bucket) (Unit {0}) (change f) s in
      elim r.0 [ ok u ↦ (none, r.1) | err e ↦ (some e, r.1) ]

  unfoldable pub persist_job : Job Data → Option B.Bucket → Option QueueError × Option B.Bucket
  persist_job j = update_error (persist_body j)

  unfoldable pub delete_body : String → Option B.Bucket → Result QueueError (Option B.Bucket)
  unfolding created
  delete_body id s = do b ← B.delete (J.id_bytes id) (created s); ok (some b)

  unfoldable pub delete_job : String → Option B.Bucket → Option QueueError × Option B.Bucket
  delete_job id = update_error (delete_body id)

  -- The loop of `Map`: an entry that cannot be decoded is logged and passed over.
  unfoldable pub decode_jobs : List (Bytes × Bytes) → List (Job Data)
  decode_jobs [] = []
  decode_jobs ((k, raw) ∷ rest) =
      let jobs = decode_jobs rest in elim (J.decode raw) [ ok j ↦ j ∷ jobs | err e ↦ jobs ]

  -- `Map`, as the list of the jobs that it sends.
  unfoldable pub stored_jobs : Option B.Bucket → List (Job Data)
  unfolding decode_jobs
  stored_jobs none = []
  stored_jobs (some b) = decode_jobs (B.entries b)

  -- The storage as the queue's interface.
  abbrev pub bolt_queue_storage : Storage Data
  bolt_queue_storage = record {
    Store = Option B.Bucket;
    persist_job = persist_job;
    delete_job = delete_job;
    stored_jobs = stored_jobs;
  }
