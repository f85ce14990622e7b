-- ===== src/Tests/Backend.antt =====
-- Tests of the request stack and of the reading loop of the backend.
use panthalassa.Base.{ℕ, ◌≡◌, refl, none, some, List, [], ◌∷◌, Bytes, lookup, bytes_eq, ok}
use panthalassa.Backend.{BackendMessage, Handler}
use panthalassa.Backend.Stack.{RequestStack, add}
use panthalassa.Backend.Refinement.{Op, add_op, cut_op, run, replay, run_refines}
use panthalassa.Backend.Dispatch.{delivers, answered, blocked, read_message}
use panthalassa.Backend.Answers.{read_message_response}

abbrev calls : List Op
calls = add_op (1 ∷ []) 5 ∷ cut_op (1 ∷ []) ∷ cut_op (1 ∷ []) ∷ []

nothing_open : (id : Bytes) → lookup id (let s : RequestStack = [] in s) ≡ none
unfolding lookup
nothing_open id = refl

run_refines_example : run calls [] ≡ replay calls (λ id. none)
run_refines_example = run_refines calls [] (λ id. none) nothing_open

abbrev response : BackendMessage ℕ ℕ
response = record { request_id = 1 ∷ []; request = none; response = some 9; error = [] }

abbrev handlers : List (Handler ℕ ℕ ℕ)
handlers = (λ req h. (ok none, h)) ∷ []

read_message_response_example :
    ((read_message handlers response 0 (add (1 ∷ []) 5 [])).1.0 ≡ delivers 5 (answered (some 9)))
    × (lookup (1 ∷ []) (read_message handlers response 0 (add (1 ∷ []) 5 [])).1.1.1 ≡ none)
    × ((read_message handlers response 0
          (read_message handlers response 0 (add (1 ∷ []) 5 [])).1.1.1).1.0
        ≡ blocked)
read_message_response_example = read_message_response handlers response 0 [] 5 refl refl
