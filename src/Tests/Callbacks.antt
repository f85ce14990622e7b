-- ===== src/Tests/Callbacks.antt =====
-- Tests of the registered functions.
use panthalassa.Base.{ℕ, [], ◌∷◌}
use panthalassa.Callbacks.{new_module, serve_all, add, delete}
use panthalassa.Callbacks.Registry.{IsCounted, serve_all-IsCounted}

serve_all-IsCounted_example :
    IsCounted ℕ (serve_all ℕ (add 5 ∷ add 6 ∷ delete 1 ∷ []) (new_module ℕ))
serve_all-IsCounted_example = serve_all-IsCounted ℕ (add 5 ∷ add 6 ∷ delete 1 ∷ [])
