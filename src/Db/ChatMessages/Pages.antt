-- ===== src/Db/ChatMessages/Pages.antt =====
-- `Messages` of db/chat_message_storage.go: a page of a chat, read backwards from a place of the
-- cursor. What was read before an error is returned with it. `sort.Slice` is a parameter.
pub mod Last
use mathlib.Core.List.{reverse, reverse_aux}
use panthalassa.Base.{
  before, ℕ, zero, suc, ◌≡◌, ◌⊎◌, refl, true, false, Option, none, some, List, [], ◌∷◌, ◌++◌, arith,
  Bytes, nat_beq, take, put_uint64, if◌then◌else◌, Result, ok, err, ◌>>=◌, inl, inr, Bool-cases,
  All,
}
use panthalassa.Bolt.{Transactions, Buckets, Nested}
use panthalassa.Db.Vault.{Vault, DbError, invalid_amount}
use panthalassa.Db.Message.{Message}
use panthalassa.Db.ChatMessages.{MessageJson, read_message}

-- `Seek` and then `Prev`, over and over: what was gone over lies behind the cursor.
unfoldable pub seek_back :
    Bytes → List (Bytes × Bytes) → List (Bytes × Bytes) → List (Bytes × Bytes)
unfolding before
seek_back from [] behind = []
seek_back from (entry ∷ entries) behind =
    let rest = seek_back from entries (entry ∷ behind) in
    if before entry.0 from then rest else entry ∷ behind

-- `seek_back` stops at the first entry that is not before the key, and goes back from there.
pub seek_back_lem :
    (from : Bytes) (entries behind : List (Bytes × Bytes))
    → ((seek_back from entries behind ≡ [])
        × All (λ (e : Bytes × Bytes). before e.0 from ≡ true) entries)
      ⊎ ((past : List (Bytes × Bytes)) × (found : Bytes × Bytes) × (later : List (Bytes × Bytes))
          × (entries ≡ past ++ (found ∷ later))
          × All (λ (e : Bytes × Bytes). before e.0 from ≡ true) past
          × (before found.0 from ≡ false)
          × (seek_back from entries behind ≡ found ∷ reverse_aux past behind))
unfolding seek_back
seek_back_lem from [] behind = inl (refl, tt)
seek_back_lem from (entry ∷ entries) behind = elim (Bool-cases (before entry.0 from)) [
  | inr stop ↦ inr ([], entry, entries, refl, tt, stop, ground arith)
  | inl on ↦ elim (seek_back_lem from entries (entry ∷ behind)) [
    | inl (e, are) ↦ inl (ground arith, (on, are))
    | inr (past, found, later, split, are, stop, e) ↦
        inr (entry ∷ past, found, later, ground arith, (on, are), stop, ground arith)
  ]
]

-- The entries from the place of the cursor, backwards. A cursor that is nowhere gives a nil value,
-- which is not a cipher text.
unfoldable pub backwards : ℕ → List (Bytes × Bytes) → List (Bytes × Bytes)
unfolding seek_back
backwards start entries =
    if nat_beq start 0 then reverse entries else seek_back (put_uint64 start) entries []

unfoldable pub at_cursor : List (Bytes × Bytes) → List (Bytes × Bytes)
at_cursor [] = ([], []) ∷ []
at_cursor (entry ∷ entries) = entry ∷ entries

module _ (T : Transactions DbError) (B : Buckets DbError) (N : Nested DbError B.Bucket B.empty)
    (V : Vault) (J : MessageJson) where
  unfoldable pub positions : Bytes → ℕ → Option N.Outer → List (Bytes × Bytes)
  unfolding backwards at_cursor
  positions partner start none = []
  positions partner start (some o) = elim (N.bucket partner o) [
    | none ↦ []
    | some b ↦ at_cursor (backwards start (B.entries b))
  ]

  -- The loop, with the first message.
  unfoldable pub read_back : ℕ → List (Bytes × Bytes) → List Message × Option DbError
  read_back zero entries = ([], none)
  read_back (suc amount) [] = ([], none)
  read_back (suc amount) (entry ∷ entries) =
      let rest = read_back amount entries in
      elim (read_message T B N V J entry.1) [ err e ↦ ([], some e) | ok m ↦ (m ∷ rest.0, rest.1) ]

  -- `Messages`
  unfoldable pub messages :
      (List Message → List Message) → Bytes → ℕ → ℕ → Option N.Outer → List Message × Option DbError
  unfolding positions read_back
  messages sort partner start amount s =
      let read = read_back amount (positions partner start s) in
      if nat_beq amount 0 then ([], some invalid_amount) else (sort read.0, read.1)

  -- All of these entries, decrypted.
  unfoldable pub read_all : List (Bytes × Bytes) → Result DbError (List Message)
  read_all [] = ok []
  read_all (entry ∷ entries) = do
    m ← read_message T B N V J entry.1
    rest ← read_all entries
    ok (m ∷ rest)

  pub read_back-read_all :
      (amount : ℕ) (entries : List (Bytes × Bytes))
      → (read_back amount entries).1 ≡ none
      → read_all (take amount entries) ≡ ok (read_back amount entries).0
  unfolding read_back read_all
  read_back-read_all zero entries h = refl
  read_back-read_all (suc amount) [] h = refl
  read_back-read_all (suc amount) (entry ∷ entries) h =
      ground (arith, read_back-read_all amount entries)
