-- ===== src/Tests/Calls.antt =====
-- Tests of the calls by name.
use panthalassa.Base.{ℕ, ◌≡◌, [], ◌∷◌, ok}
use panthalassa.Dyncall.{CallModule, answer, call, register_all}
use panthalassa.Dyncall.Registered.{first, call-register_all}

abbrev echo : ℕ → CallModule ℕ
echo n = record { call_id = 7 ∷ []; validate = λ p. ok tt; handle = λ p. ok n }

call-register_all_example :
    call ℕ (7 ∷ []) 5 (register_all ℕ (echo 1 ∷ echo 2 ∷ []) [])
    ≡ answer ℕ (first ℕ (7 ∷ []) (echo 1 ∷ echo 2 ∷ [])) (7 ∷ []) 5
call-register_all_example = call-register_all ℕ (echo 1 ∷ echo 2 ∷ []) (7 ∷ []) 5
