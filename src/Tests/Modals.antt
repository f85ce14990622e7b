-- ===== src/Tests/Modals.antt =====
-- Tests of the modals that DApps show.
use panthalassa.Base.{◌≡◌, refl, some, [], ◌∷◌, lookup, insert, bytes_beq, bytes_eq, arith}
use panthalassa.Limits.CountThrottling.{inc_current, new_count_throttling}
use panthalassa.Dapp.Modal.{
  World, Reach, at_start, next, launches, begins, closes, deletes, start, new_module, fetch_closer,
  add_modal, delete_modal,
}
use panthalassa.Dapp.Modal.Closing.{IsAccounted, Reach-IsAccounted}
use panthalassa.Tests.DappMessages.{js, callback}

-- A modal that is opened and then closed.
abbrev launched : World js
unfolding start new_module inc_current
launched = record (start js (new_module js)) {
  state = record (new_module js) { req_lim = inc_current (new_module js).req_lim };
  launched = 1;
}

abbrev opened : World js
unfolding add_modal
opened = record launched {
  state = add_modal js (7 ∷ []) callback launched.state;
  launched = 0;
  opening = (7 ∷ []) ∷ [];
}

abbrev closing : World js
closing = record opened { closing = (7 ∷ []) ∷ [] }

abbrev closed : World js
unfolding delete_modal
closed = record opened { state = delete_modal js (7 ∷ []) opened.state }

fetched : fetch_closer js (7 ∷ []) opened.state ≡ some callback
unfolding fetch_closer lookup insert add_modal new_module start bytes_beq launched
fetched = refl

closed-Reach : Reach js (new_module js) closed
unfolding start launched opened closed new_module new_count_throttling fetch_closer lookup insert
    add_modal bytes_beq
closed-Reach =
    next
      (next
        (next (next at_start (launches (start js (new_module js)) (omega arith)))
          (begins launched 0 (7 ∷ []) callback refl refl))
        (closes opened (7 ∷ []) callback fetched))
      (deletes closing (7 ∷ []) [] [] refl)

Reach-IsAccounted_example : IsAccounted js closed
Reach-IsAccounted_example = Reach-IsAccounted js closed closed-Reach
