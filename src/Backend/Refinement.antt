-- ===== src/Backend/Refinement.antt =====
-- The request stack does what a function from ids to channels does.
use panthalassa.Base.{
  ℕ, ◌≡◌, refl, ◌∙◌, Option, none, some, List, [], ◌∷◌, arith, Bytes, lookup, lookup-insert,
  lookup-remove, bytes_eq, ◌==◌, if◌then◌else◌,
}
use panthalassa.Backend.Stack.{RequestStack, add, remove_request, cut}

pub data Op : Type 0 where
  add_op : Bytes → ℕ → Op
  remove_op : Bytes → Op
  cut_op : Bytes → Op

-- What the calls of `Cut` return, in their order.
unfoldable pub run : List Op → RequestStack → List (Option ℕ)
unfolding cut
run [] s = []
run (add_op id channel ∷ ops) s = run ops (add id channel s)
run (remove_op id ∷ ops) s = run ops (remove_request id s)
run (cut_op id ∷ ops) s = (cut id s).0 ∷ run ops (cut id s).1

-- The open requests as a function.
unfoldable pub set : Bytes → Option ℕ → (Bytes → Option ℕ) → Bytes → Option ℕ
set id value open_at i = if id == i then value else open_at i

unfoldable pub replay : List Op → (Bytes → Option ℕ) → List (Option ℕ)
unfolding set
replay [] f = []
replay (add_op id channel ∷ ops) f = replay ops (set id (some channel) f)
replay (remove_op id ∷ ops) f = replay ops (set id none f)
replay (cut_op id ∷ ops) f = f id ∷ replay ops (set id none f)

-- For any sequence of `Add`, `Remove` and `Cut` on a request stack that holds what a function from
-- ids to channels says, the calls of `Cut` return what they return on that function, in which a
-- call sets one id.
pub run_refines :
    (ops : List Op) (s : RequestStack) (f : Bytes → Option ℕ)
    → ((id : Bytes) → lookup id s ≡ f id)
    → run ops s ≡ replay ops f
unfolding run replay set add remove_request cut
run_refines [] s f h = refl
run_refines (add_op id channel ∷ ops) s f h =
    run_refines ops (add id channel s) (set id (some channel) f)
      (λ i. lookup-insert id i channel s ∙ ground (arith, h i))
run_refines (remove_op id ∷ ops) s f h =
    run_refines ops (remove_request id s) (set id none f)
      (λ i. lookup-remove id i s ∙ ground (arith, h i))
run_refines (cut_op id ∷ ops) s f h = ground (
  arith,
  h id,
  run_refines ops (cut id s).1 (set id none f) (λ i. lookup-remove id i s ∙ ground (arith, h i)),
)
