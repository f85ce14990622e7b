-- ===== src/Queue/Operations.antt =====
-- The methods of queue.go, on every branch.
use panthalassa.Base.{
  ◌≡◌, ◌⊎◌, String, none, some, [], ◌∷◌, ◌++◌, arith, lookup, lookup-insert, if◌then◌else◌,
  string_eq, ◌==◌, inl, inr, Option-cases,
}
use panthalassa.Queue.{
  Job, QueueError, already_registered, no_processor_registered, Storage, Processor, Queue,
  register_processor, add_job,
}

module _ {Data : Type 0} (S : Storage Data) where
  -- A type is registered once: a second registration fails and keeps the first processor; a first
  -- one is found under its type from then on, and leaves every other type as it was.
  pub register_processor_lem :
      (p : Processor Data S.Store) (q : Queue S)
      → ((old : Processor Data S.Store) × (lookup p.handles q.processors ≡ some old)
          × (register_processor S p q ≡ (some already_registered, q)))
        ⊎ ((lookup p.handles q.processors ≡ none)
            × ((register_processor S p q).0 ≡ none)
            × ((name : String)
                → lookup name (register_processor S p q).1.processors
                  ≡ (if p.handles == name then some p else lookup name q.processors)))
  unfolding register_processor
  register_processor_lem p q = elim (Option-cases (lookup p.handles q.processors)) [
    | inl free ↦ inr (
      free,
      ground arith,
      λ name. rw (free, register_processor) (lookup-insert p.handles name p q.processors),
    )
    | inr (old, taken) ↦ inl (old, taken, rw (taken, register_processor))
  ]

  -- `AddJob` up to the send, on its four branches: a job without a processor for its type, and a
  -- job that its processor does not accept, give that error and change nothing; a job that the
  -- storage refuses gives the storage's error; any other job has been handed to the storage and is
  -- the one about to be sent. The channel is untouched on each.
  pub add_job_lem :
      (j : Job Data) (q : Queue S)
      → ((lookup j.type q.processors ≡ none) × (add_job S j q ≡ (some no_processor_registered, q)))
        ⊎ ((p : Processor Data S.Store) × (lookup j.type q.processors ≡ some p)
            × (((e : QueueError) × (p.valid_job j ≡ some e) × (add_job S j q ≡ (some e, q)))
                ⊎ (((e : QueueError) × (p.valid_job j ≡ none)
                      × ((S.persist_job j q.store).0 ≡ some e)
                      × (add_job S j q
                          ≡ (some e, record q { store = (S.persist_job j q.store).1 })))
                    ⊎ ((p.valid_job j ≡ none)
                        × ((S.persist_job j q.store).0 ≡ none)
                        × (add_job S j q ≡ (
                          none,
                          record q {
                            store = (S.persist_job j q.store).1;
                            sending = some j;
                            admitted = q.admitted ++ (j ∷ []);
                          },
                        ))))))
  unfolding add_job
  add_job_lem j q = elim (Option-cases (lookup j.type q.processors)) [
    | inl missing ↦ inl (missing, rw (missing, add_job))
    | inr (p, found) ↦ inr (
      p,
      found,
      elim (Option-cases (p.valid_job j)) [
        | inr (e, bad) ↦ inl (e, bad, ground arith)
        | inl good ↦ inr (elim (Option-cases (S.persist_job j q.store).0) [
          | inr (e, refused) ↦ inl (e, good, refused, ground arith)
          | inl stored ↦ inr (good, stored, ground arith)
        ])
      ],
    )
  ]
