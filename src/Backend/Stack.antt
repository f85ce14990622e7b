-- ===== src/Backend/Stack.antt =====
-- backend/request.go: the response channels of the requests that wait, by the id of the request.
use panthalassa.Base.{ℕ, Option, Bytes, Assoc, lookup, insert, remove, bytes_eq}

abbrev pub RequestStack : Type 0
RequestStack = Assoc Bytes ℕ

unfoldable pub add : Bytes → ℕ → RequestStack → RequestStack
add id channel s = insert id channel s

unfoldable pub remove_request : Bytes → RequestStack → RequestStack
remove_request id s = remove id s

-- The channel is nil where there is none.
unfoldable pub cut : Bytes → RequestStack → Option ℕ × RequestStack
cut id s = (lookup id s, remove id s)
