-- ===== src/Queue/Conservation.antt =====
-- No job of queue.go is lost, and none is doubled, until a processor has handled it.
use panthalassa.Base.{
  ℕ, suc, ◌+◌, ◌≡◌, refl, String, Option, none, some, List, [], ◌∷◌, ◌++◌, arith, zero,
  if◌then◌else◌, string_eq, ◌==◌, replicate,
}
use panthalassa.Queue.{
  Job, Worker, waiting, received, putting_back, Storage, Queue, new_queue, register_processor,
  add_job, delete_job, handle_job, Step, register, add, send, load, delete, receive, handle,
  put_back, Reach, here, next,
}

module _ {Data : Type 0} where
  -- The jobs of a list with the given id.
  pub count : String → List (Job Data) → ℕ
  count id [] = 0
  count id (j ∷ js) = let rest = count id js in if j.id == id then suc rest else rest

  pub held : Worker Data → List (Job Data)
  held waiting = []
  held (received j) = j ∷ []
  held (putting_back j) = j ∷ []

  pub count_held : String → List (Worker Data) → ℕ
  count_held id [] = 0
  count_held id (w ∷ ws) = count id (held w) + count_held id ws

  pub to_list : Option (Job Data) → List (Job Data)
  to_list none = []
  to_list (some j) = j ∷ []

  count-append :
      (id : String) (xs ys : List (Job Data)) → count id (xs ++ ys) ≡ count id xs + count id ys
  unfolding count
  count-append id [] ys = omega arith
  count-append id (j ∷ js) ys = ground (arith, count-append id js ys)

  count_held-append :
      (id : String) (xs ys : List (Worker Data))
      → count_held id (xs ++ ys) ≡ count_held id xs + count_held id ys
  unfolding count_held
  count_held-append id [] ys = omega arith
  count_held-append id (w ∷ ws) ys = omega (arith, count_held-append id ws ys)

count_held-replicate :
    (Data : Type 0) (id : String) (n : ℕ) → count_held {Data = Data} id (replicate n waiting) ≡ 0
unfolding count_held held count
count_held-replicate Data id zero = refl
count_held-replicate Data id (suc n) = omega (arith, count_held-replicate Data id n)

module _ {Data : Type 0} (S : Storage Data) where
  -- Where the jobs with an id are: on the channel, with a worker, about to be sent, or not yet
  -- loaded from the storage.
  pub open_jobs : String → Queue S → ℕ
  open_jobs id q =
      count id q.stack + count_held id q.workers + count id (to_list q.sending) + count id q.loading

  abbrev pub IsConserved : Queue S → Type 0
  IsConserved q = (id : String) → count id q.admitted ≡ open_jobs id q + count id q.finished

  Step-IsConserved : {q v : Queue S} → Step S q v → IsConserved q → IsConserved v
  unfolding open_jobs count count_held held to_list register_processor add_job delete_job handle_job
  Step-IsConserved {q} (register p idle e) c id = ground (arith, c id)
  Step-IsConserved {q} (add j idle e) c id =
      ground (arith, c id, count-append id q.admitted (j ∷ []))
  Step-IsConserved {q} (send j e room ev) c id =
      ground (arith, c id, count-append id q.stack (j ∷ []))
  Step-IsConserved {q} (load j js e room ev) c id =
      ground (arith, c id, count-append id q.stack (j ∷ []))
  Step-IsConserved {q} (delete j e) c id = ground (arith, c id)
  Step-IsConserved {q} (receive xs ys j js e f ev) c id = ground (
    arith,
    c id,
    count_held-append id xs (waiting ∷ ys),
    count_held-append id xs (received j ∷ ys),
  )
  Step-IsConserved {q} (handle xs ys j e idle ev) c id = ground (
    arith,
    c id,
    count_held-append id xs (received j ∷ ys),
    count_held-append id xs ((handle_job S j q).0 ∷ ys),
    count-append id q.finished (j ∷ []),
  )
  Step-IsConserved {q} (put_back xs ys j e room ev) c id = ground (
    arith,
    c id,
    count-append id q.stack (j ∷ []),
    count_held-append id xs (putting_back j ∷ ys),
    count_held-append id xs (waiting ∷ ys),
  )

  Reach-IsConserved : {q v : Queue S} → Reach S q v → IsConserved q → IsConserved v
  Reach-IsConserved here c = c
  Reach-IsConserved (next r s) c = Step-IsConserved s (Reach-IsConserved r c)

  new-IsConserved : (st : S.Store) (size n : ℕ) → IsConserved (new_queue S st size n)
  unfolding new_queue open_jobs to_list count
  new-IsConserved st size n id = omega (arith, count_held-replicate Data id n)

  -- Whatever the goroutines of a queue do and in whatever order: for each id, the jobs that
  -- `AddJob` accepted or the start loaded are as many as those still on the channel, with a
  -- worker, about to be sent or to be loaded, and those that a processor handled without an error.
  pub Reach-conserved :
      (st : S.Store) (size n : ℕ) {v : Queue S}
      → Reach S (new_queue S st size n) v
      → (id : String) → count id v.admitted ≡ open_jobs id v + count id v.finished
  Reach-conserved st size n r = Reach-IsConserved r (new-IsConserved st size n)
