-- ===== src/Tests/Queue.antt =====
-- Tests of queue/queue.go.
use panthalassa.Base.{ℕ, ◌+◌, ◌≡◌, refl, none, List, [], ◌∷◌, arith, string_eq}
use panthalassa.Queue.{
  Job, Storage, Processor, putting_back, Queue, new_queue, register_processor, delete_job, here,
  next, load, delete,
}
use panthalassa.Queue.Conservation.{count, open_jobs, Reach-conserved}
use panthalassa.Queue.Starvation.{Reach-stuck}

abbrev mail : Job ℕ
mail = record { id = "1"; type = "mail"; payload = 5 }

abbrev memory : Storage ℕ
memory = record {
  Store = List (Job ℕ);
  persist_job = λ j s. (none, j ∷ s);
  delete_job = λ id s. (none, []);
  stored_jobs = λ s. s;
}

abbrev mailer : Processor ℕ (List (Job ℕ))
mailer = record { handles = "mail"; valid_job = λ j. none; process = λ j s. (none, s) }

abbrev start : Queue memory
start = new_queue memory (mail ∷ []) 4 2

abbrev ready : Queue memory
ready = (register_processor memory mailer start).1

abbrev loaded : Queue memory
loaded = record start { stack = mail ∷ []; loading = [] }

Reach-conserved_example :
    count "1" loaded.admitted ≡ open_jobs memory "1" loaded + count "1" loaded.finished
unfolding new_queue
Reach-conserved_example =
    Reach-conserved memory (mail ∷ []) 4 2 {v = loaded}
      (next here (load mail [] refl (omega arith) refl)) "1"

-- One worker, which sleeps before it puts a failed job back, and one place, which is taken.
abbrev blocked : Queue memory
blocked = record start { stack = mail ∷ []; capacity = 1; workers = putting_back mail ∷ [] }

Reach-stuck_example :
    let v = (delete_job memory mail blocked).1 in
    (v.workers ≡ blocked.workers) × (v.stack ≡ blocked.stack) × (v.finished ≡ blocked.finished)
unfolding new_queue
Reach-stuck_example =
    Reach-stuck memory blocked {v = (delete_job memory mail blocked).1} (tt, tt) (omega arith)
      (next here (delete mail refl))
