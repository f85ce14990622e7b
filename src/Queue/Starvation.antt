-- ===== src/Queue/Starvation.antt =====
-- The workers of queue.go put a failed job back on the channel that they alone empty.
use panthalassa.Base.{◌≤◌, ◌≡◌, refl, List, [], ◌∷◌, ◌++◌, arith, length, All}
use panthalassa.Queue.{
  Job, Worker, waiting, received, putting_back, Storage, Queue, register_processor, add_job,
  delete_job, Step, register, add, send, load, delete, receive, handle, put_back, Reach, here, next,
}

module _ {Data : Type 0} (S : Storage Data) where
  abbrev pub IsPuttingBack : Worker Data → Type 0
  IsPuttingBack (putting_back j) = Unit
  IsPuttingBack waiting = ⊥
  IsPuttingBack (received j) = ⊥

  not_all :
      (xs ys : List (Worker Data)) (w : Worker Data)
      → All IsPuttingBack (xs ++ (w ∷ ys))
      → IsPuttingBack w
  not_all [] ys w h = h.0
  not_all (x ∷ xs) ys w h = not_all xs ys w h.1

  -- Every worker waits to put a job back, and the channel has no room.
  pub record IsStuck (workers : List (Worker Data)) (stack : List (Job Data))
      (finished : List (Job Data)) (q : Queue S) : Type 0 where
    pub same_workers : q.workers ≡ workers
    pub same_stack : q.stack ≡ stack
    pub same_finished : q.finished ≡ finished
    pub full : q.capacity ≤ length q.stack
    pub busy : All IsPuttingBack q.workers

  Step-IsStuck :
      {ws : List (Worker Data)} {st fin : List (Job Data)} {q v : Queue S}
      → Step S q v
      → IsStuck ws st fin q
      → IsStuck ws st fin v
  unfolding register_processor add_job delete_job
  Step-IsStuck (register p idle e) h = ground arith
  Step-IsStuck (add j idle e) h = ground arith
  Step-IsStuck (send j e room ev) h = absurd (omega (arith, h.full))
  Step-IsStuck (load j js e room ev) h = absurd (omega (arith, h.full))
  Step-IsStuck (delete j e) h = ground arith
  Step-IsStuck (receive xs ys j js e f ev) h = absurd (not_all xs ys waiting (rw e at h.busy))
  Step-IsStuck (handle xs ys j e idle ev) h = absurd (not_all xs ys (received j) (rw e at h.busy))
  Step-IsStuck (put_back xs ys j e room ev) h = absurd (omega (arith, h.full))

  Reach-IsStuck :
      {ws : List (Worker Data)} {st fin : List (Job Data)} {q v : Queue S}
      → Reach S q v
      → IsStuck ws st fin q
      → IsStuck ws st fin v
  Reach-IsStuck here h = h
  Reach-IsStuck (next r s) h = Step-IsStuck s (Reach-IsStuck r h)

  -- Once every worker waits to put a job back and the channel is full, the queue does no more:
  -- whatever is called from then on, each worker still waits with its job, the channel holds the
  -- same jobs and no further job is finished.
  pub Reach-stuck :
      (q : Queue S) {v : Queue S}
      → All IsPuttingBack q.workers
      → q.capacity ≤ length q.stack
      → Reach S q v
      → (v.workers ≡ q.workers) × (v.stack ≡ q.stack) × (v.finished ≡ q.finished)
  Reach-stuck q busy full r =
      let h = Reach-IsStuck {ws = q.workers} {st = q.stack} {fin = q.finished} r (record {
        same_workers = refl;
        same_stack = refl;
        same_finished = refl;
        full = full;
        busy = busy;
      }) in
      (h.same_workers, h.same_stack, h.same_finished)
