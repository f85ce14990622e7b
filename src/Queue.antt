-- ===== src/Queue.antt =====
-- queue/queue.go: the job queue. The storage is the interface that queue.go declares, the
-- processors are what the rest of the program registers. A goroutine that runs `AddJob` holds the
-- lock while it waits to send on the channel `jobStack`, so the state has at most one job that is
-- being sent. The steps of the goroutines interleave in any order. The jobs that `Map` sends at the
-- start are taken to be those which are stored when the queue is made; in the program `Map` reads the
-- storage a little later. A stack size of 0, a channel that only hands jobs over, is not covered: no
-- step sends on it.
pub mod Operations
pub mod Conservation
pub mod Starvation
pub mod Stored
use panthalassa.Base.{
  ℕ, ◌<◌, ◌≡◌, String, Option, none, some, List, [], ◌∷◌, ◌++◌, length, Assoc, lookup, insert,
  replicate, string_eq,
}

pub record Job (Data : Type 0) : Type 0 where
  pub id : String
  pub type : String
  pub payload : Data

-- What went wrong: the two messages of queue.go, and the errors of the processors and the storage.
pub data QueueError : Type 0 where
  already_registered no_processor_registered processor_missing : QueueError
  foreign : ℕ → QueueError

-- The interface `Storage`, with the jobs that `Map` sends.
pub record Storage (Data : Type 0) : Type 1 where
  pub Store : Type 0
  pub persist_job : Job Data → Store → Option QueueError × Store
  pub delete_job : String → Store → Option QueueError × Store
  pub stored_jobs : Store → List (Job Data)

-- The interface `Processor`: `process` may use the storage, as it deletes a job that is done.
pub record Processor (Data Store : Type 0) : Type 0 where
  pub handles : String
  pub valid_job : Job Data → Option QueueError
  pub process : Job Data → Store → Option QueueError × Store

-- A worker waits for a job, has received one, or sleeps before it puts one back.
pub data Worker (Data : Type 0) : Type 0 where
  waiting : Worker Data
  received : Job Data → Worker Data
  putting_back : Job Data → Worker Data

module _ {Data : Type 0} (S : Storage Data) where
  -- `admitted` and `finished` are not in the program: the jobs that were accepted or loaded, and
  -- those that a processor has handled without an error.
  pub record Queue : Type 0 where
    pub processors : Assoc String (Processor Data S.Store)
    pub store : S.Store
    pub stack : List (Job Data)
    pub capacity : ℕ
    pub sending : Option (Job Data)
    pub loading : List (Job Data)
    pub workers : List (Worker Data)
    pub admitted : List (Job Data)
    pub finished : List (Job Data)

  unfoldable pub new_queue : S.Store → ℕ → ℕ → Queue
  new_queue store stack_size concurrency = record {
    processors = [];
    store = store;
    stack = [];
    capacity = stack_size;
    sending = none;
    loading = S.stored_jobs store;
    workers = replicate concurrency waiting;
    admitted = S.stored_jobs store;
    finished = [];
  }

  unfoldable pub register_processor : Processor Data S.Store → Queue → Option QueueError × Queue
  register_processor p q = elim (lookup p.handles q.processors) [
    | some other ↦ (some already_registered, q)
    | none ↦ (none, record q { processors = insert p.handles p q.processors })
  ]

  -- The end of `AddJob`: the job is stored, and about to be sent.
  unfoldable pub store_job :
      Job Data → Option QueueError × S.Store → Queue → Option QueueError × Queue
  store_job j (some e, st) q = (some e, record q { store = st })
  store_job j (none, st) q =
      (none, record q { store = st; sending = some j; admitted = q.admitted ++ (j ∷ []) })

  -- `AddJob` up to the send.
  unfoldable pub add_job : Job Data → Queue → Option QueueError × Queue
  unfolding store_job
  add_job j q = elim (lookup j.type q.processors) [
    | none ↦ (some no_processor_registered, q)
    | some p ↦ elim (p.valid_job j) [
      | some e ↦ (some e, q)
      | none ↦ store_job j (S.persist_job j q.store) q
    ]
  ]

  unfoldable pub delete_job : Job Data → Queue → Option QueueError × Queue
  delete_job j q = let r = S.delete_job j.id q.store in (r.0, record q { store = r.1 })

  unfoldable pub fetch_processor : String → Queue → Option (Processor Data S.Store)
  fetch_processor name q = lookup name q.processors

  -- What a worker does with the result of `Process`.
  unfoldable pub after_process :
      Job Data → Option QueueError × S.Store → Queue → Worker Data × Queue
  after_process j (some e, st) q = (putting_back j, record q { store = st })
  after_process j (none, st) q =
      (waiting, record q { store = st; finished = q.finished ++ (j ∷ []) })

  -- The body of a worker's loop for one received job.
  unfoldable pub handle_job : Job Data → Queue → Worker Data × Queue
  unfolding after_process fetch_processor
  handle_job j q = elim (fetch_processor j.type q) [
    | none ↦ (putting_back j, q)
    | some p ↦ after_process j (p.process j q.store) q
  ]

  pub data Step (q : Queue) : Queue → Type 0 where
    register :
        {v : Queue} (p : Processor Data S.Store)
        → q.sending ≡ none
        → v ≡ (register_processor p q).1
        → Step q v
    add : {v : Queue} (j : Job Data) → q.sending ≡ none → v ≡ (add_job j q).1 → Step q v
    send :
        {v : Queue} (j : Job Data)
        → q.sending ≡ some j
        → length q.stack < q.capacity
        → v ≡ record q { stack = q.stack ++ (j ∷ []); sending = none }
        → Step q v
    load :
        {v : Queue} (j : Job Data) (js : List (Job Data))
        → q.loading ≡ j ∷ js
        → length q.stack < q.capacity
        → v ≡ record q { stack = q.stack ++ (j ∷ []); loading = js }
        → Step q v
    delete : {v : Queue} (j : Job Data) → v ≡ (delete_job j q).1 → Step q v
    receive :
        {v : Queue} (before after : List (Worker Data)) (j : Job Data) (js : List (Job Data))
        → q.workers ≡ before ++ (waiting ∷ after)
        → q.stack ≡ j ∷ js
        → v ≡ record q { stack = js; workers = before ++ (received j ∷ after) }
        → Step q v
    handle :
        {v : Queue} (before after : List (Worker Data)) (j : Job Data)
        → q.workers ≡ before ++ (received j ∷ after)
        → q.sending ≡ none
        → v ≡ record (handle_job j q).1 { workers = before ++ ((handle_job j q).0 ∷ after) }
        → Step q v
    put_back :
        {v : Queue} (before after : List (Worker Data)) (j : Job Data)
        → q.workers ≡ before ++ (putting_back j ∷ after)
        → length q.stack < q.capacity
        → v ≡ record q { stack = q.stack ++ (j ∷ []); workers = before ++ (waiting ∷ after) }
        → Step q v

  pub data Reach (q : Queue) : Queue → Type 0 where
    here : Reach q q
    next : {u v : Queue} → Reach q u → Step u v → Reach q v
