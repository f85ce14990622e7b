-- ===== src/Dapp/Modal/Closing.antt =====
-- The modals of the goroutine, however jobs and calls of `CloseModal` follow each other.
use panthalassa.Base.{
  suc, ◌+◌, ◌<◌, length, IsDistinct, IsDistinct-insert, IsDistinct-remove, remove_missing,
  length-insert, length-remove, ℕ, ◌-◌, ◌≤◌, ◌≡◌, ◌≢◌, refl, none, some, List, [], ◌∷◌, ◌++◌, arith,
  Bytes, lookup, remove, lookup-remove, lookup-remove_self, bytes_eq, bytes_beq_iff, ok, inl, inr,
  Option-cases, Result,
}
use panthalassa.Limits.CountThrottling.{inc_current, dec_current, new_count_throttling}
use panthalassa.Dapp.Validator.{Otto, argument, validate}
use panthalassa.Dapp.Modal.{
  Module, add_modal, finish_job, fetch_closer, delete_modal, render_modal, render_rules,
  close_modal, called_missing_modal_id, closer_called, World, Step, launches, begins, waste,
  new_module, answers, fails, closes, deletes, start, Reach, at_start, next,
}

module _ (O : Otto) where
  -- The counter of the limiter is between the number of modals that are open or about to be, and that
  -- number less the places that were given back for modals which were gone.
  pub record IsAccounted (w : World O) : Type 0 where
    pub distinct : IsDistinct w.state.modals
    pub same_limit : w.state.req_lim.concurrency ≡ 6
    pub within : w.state.req_lim.current ≤ 6
    pub no_leak : w.state.req_lim.current ≤ w.launched + length w.state.modals
    pub no_free : w.launched + length w.state.modals ≤ w.state.req_lim.current + w.wasted

  launches-IsAccounted :
      (w : World O)
      → w.state.req_lim.current < w.state.req_lim.concurrency
      → IsAccounted w
      → IsAccounted (record w {
        state = record w.state { req_lim = inc_current w.state.req_lim };
        launched = suc w.launched;
      })
  unfolding inc_current
  launches-IsAccounted w room h = record {
    distinct = h.distinct;
    same_limit = h.same_limit;
    within = ground (arith, h.same_limit);
    no_leak = ground (arith, h.no_leak, h.same_limit);
    no_free = ground (arith, h.no_free, h.same_limit);
  }

  begins-IsAccounted :
      (w : World O) (n : ℕ) (id : Bytes) (closer : O.Value)
      → w.launched ≡ suc n
      → fetch_closer O id w.state ≡ none
      → IsAccounted w
      → IsAccounted (record w {
        state = add_modal O id closer w.state;
        launched = n;
        opening = id ∷ w.opening;
      })
  unfolding add_modal fetch_closer
  begins-IsAccounted w n id closer before fresh h =
      let longer = length-insert id closer w.state.modals fresh in
      record {
        distinct = IsDistinct-insert id closer w.state.modals fresh h.distinct;
        same_limit = h.same_limit;
        within = h.within;
        no_leak = omega (arith, h.no_leak, before, longer);
        no_free = omega (arith, h.no_free, before, longer);
      }

  deletes-IsAccounted :
      (w : World O) (id : Bytes) (opening closing : List Bytes)
      → IsAccounted w
      → IsAccounted (record w {
        state = delete_modal O id w.state;
        opening = opening;
        closing = closing;
        wasted = waste O (fetch_closer O id w.state) w.wasted;
      })
  unfolding delete_modal fetch_closer dec_current
  deletes-IsAccounted w id opening closing h =
      let left = IsDistinct-remove id w.state.modals h.distinct in
      elim (Option-cases (lookup id w.state.modals)) [
        | inl gone ↦
            let same = remove_missing id w.state.modals gone in
            record {
              distinct = left;
              same_limit = ground (arith, h.same_limit);
              within = ground (arith, h.within);
              no_leak = ground (arith, same, h.no_leak);
              no_free = ground (arith, same, h.no_free);
            }
        | inr (closer, found) ↦
            let shorter = length-remove id closer w.state.modals h.distinct found in
            record {
              distinct = left;
              same_limit = ground (arith, h.same_limit);
              within = ground (arith, h.within);
              no_leak = ground (arith, shorter, h.no_leak);
              no_free = ground (arith, shorter, h.no_free);
            }
      ]

  Step-IsAccounted : (v w : World O) → IsAccounted v → Step O v w → IsAccounted w
  unfolding finish_job
  Step-IsAccounted v w h (launches _ room) = launches-IsAccounted v room h
  Step-IsAccounted v w h (begins _ n id closer before fresh) =
      begins-IsAccounted v n id closer before fresh h
  Step-IsAccounted v w h (answers _ id before after e) = record {
    distinct = h.distinct;
    same_limit = h.same_limit;
    within = h.within;
    no_leak = h.no_leak;
    no_free = h.no_free;
  }
  Step-IsAccounted v w h (fails _ id before after e) =
      deletes-IsAccounted v id (before ++ after) v.closing h
  Step-IsAccounted v w h (closes _ id closer e) = record {
    distinct = h.distinct;
    same_limit = h.same_limit;
    within = h.within;
    no_leak = h.no_leak;
    no_free = h.no_free;
  }
  Step-IsAccounted v w h (deletes _ id before after e) =
      deletes-IsAccounted v id v.opening (before ++ after) h

  -- However the limiter, its jobs, their callbacks and calls of `CloseModal` follow each other
  -- from a new module, the counter of the limiter is at most its limit of 6 and at most the
  -- number of open modals and of jobs that are about to open one, so that no place is lost; and
  -- it is at least that number less the messages to `deleteModalID` for an id that was gone.
  pub Reach-IsAccounted : (w : World O) → Reach O (new_module O) w → IsAccounted w
  unfolding start new_module new_count_throttling
  Reach-IsAccounted w at_start = record {
    distinct = tt;
    same_limit = refl;
    within = omega arith;
    no_leak = omega arith;
    no_free = omega arith;
  }
  Reach-IsAccounted w (next {v} before step) =
      Step-IsAccounted v w (Reach-IsAccounted v before) step

  -- `CloseModal` of a modal, with nothing between its messages, calls the function that closes it and
  -- gives its place in the limiter back; a second one does nothing, a valid call of renderModal for
  -- that id is answered that it does not exist, and the other modals stay.
  pub close_modal_lem :
      (id : Bytes) (closer : O.Value) (device : Result ℕ (Unit {0})) (call : List O.Value)
      (m : Module O)
      → fetch_closer O id m ≡ some closer
      → validate O (render_rules O) call ≡ ok tt
      → O.text (argument O call 0) ≡ id
      → (close_modal O id m ≡ (closer_called closer ∷ [], delete_modal O id m))
        × (close_modal O id (close_modal O id m).1 ≡ ([], (close_modal O id m).1))
        × (render_modal O device call (close_modal O id m).1 ≡ called_missing_modal_id id ∷ [])
        × ((other : Bytes)
            → id ≢ other
            → fetch_closer O other (close_modal O id m).1 ≡ fetch_closer O other m)
  unfolding close_modal delete_modal fetch_closer render_modal
  close_modal_lem id closer device call m held valid same =
      let gone = lookup-remove_self id m.modals in
      (
        ground arith,
        ground (arith, gone),
        ground (arith, gone),
        λ other differs. ground (arith, lookup-remove id other m.modals, bytes_beq_iff id other),
      )

  -- Two calls of `CloseModal` for one modal that both have its function before the first of them sends
  -- its id give two places of the limiter back for the one modal.
  pub close_twice :
      (id : Bytes) (closer : O.Value) (m : Module O)
      → fetch_closer O id m ≡ some closer
      → 2 ≤ m.req_lim.current
      → (w : World O) × Reach O m w
        × (w.closing ≡ [])
        × (w.opening ≡ [])
        × (lookup id w.state.modals ≡ none)
        × (w.state.req_lim.current ≡ m.req_lim.current - 2)
  unfolding delete_modal start dec_current
  close_twice id closer m held enough =
      let first = next (at_start) (closes (start O m) id closer held) in
      let second = next first (closes _ id closer held) in
      let third = next second (deletes _ id [] (id ∷ []) refl) in
      let fourth = next third (deletes _ id [] [] refl) in
      (
        _,
        fourth,
        refl,
        refl,
        ground (arith, lookup-remove_self id (remove id m.modals)),
        ground arith,
      )
