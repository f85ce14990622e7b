-- ===== src/Db/ChatMessages/Pages/Last.antt =====
-- Which messages `Messages` returns, in terms of the entries of a chat in the order of their keys.
use mathlib.Core.List.{Perm, reverse, reverse-append, append_assoc, append-nil}
use panthalassa.Base.{
  ℕ, zero, suc, ◌≡◌, ◌≤◌, ◌⊎◌, ◌<◌, refl, sym, ap, ◌∙◌, true, false, Option, none, some, List, [],
  ◌∷◌, ◌++◌, arith, Bytes, nat_beq, length, take, take-reverse, length-reverse, put_uint64, before,
  All, ok, inl, inr, Bool-cases, List-cases,
}
use panthalassa.Bolt.{Transactions, Buckets, Nested}
use panthalassa.Db.Vault.{Vault, DbError}
use panthalassa.Db.Message.{Message}
use panthalassa.Db.ChatMessages.{MessageJson}
use panthalassa.Db.ChatMessages.Pages.{
  seek_back_lem, backwards, at_cursor, positions, read_back, messages, read_all, read_back-read_all,
}

abbrev pub Entries : Type 0
Entries = List (Bytes × Bytes)

-- The entries up to the place where reading begins: all of them for 0, otherwise those up to the first
-- one whose key is not before that of `start`.
abbrev pub IsUpTo : ℕ → Entries → Entries → Type 0
IsUpTo start upto later =
    ((start ≡ 0) × (later ≡ []))
    ⊎ ((below : Entries) × (found : Bytes × Bytes) × (upto ≡ below ++ (found ∷ []))
        × All (λ (e : Bytes × Bytes). before e.0 (put_uint64 start) ≡ true) below
        × (before found.0 (put_uint64 start) ≡ false))

-- No entry is at that place.
abbrev pub IsNowhere : ℕ → Entries → Type 0
IsNowhere start entries = All (λ (e : Bytes × Bytes). before e.0 (put_uint64 start) ≡ true) entries

-- The last `amount` entries up to that place, or all of them where there are fewer.
pub record IsPage (start amount : ℕ) (entries page : Entries) : Type 0 where
  pub past : Entries
  pub later : Entries
  pub split : entries ≡ past ++ (page ++ later)
  pub place : IsUpTo start (past ++ page) later
  pub short : length page ≤ amount
  pub full : (length page ≡ amount) ⊎ (past ≡ [])

length-snoc : (below : Entries) (found : Bytes × Bytes) → 0 < length (below ++ (found ∷ []))
length-snoc [] found = omega arith
length-snoc (e ∷ below) found = omega arith

backwards_cases :
    (start : ℕ) (entries : Entries)
    → ((backwards start entries ≡ []) × IsNowhere start entries)
      ⊎ ((upto : Entries) × (later : Entries) × (entries ≡ upto ++ later)
          × (backwards start entries ≡ reverse upto)
          × (0 < length upto)
          × IsUpTo start upto later)
unfolding backwards
backwards_cases start entries = elim (Bool-cases (nat_beq start 0)) [
  | inl at_end ↦ elim (List-cases entries) [
    | inl e ↦ let none_left : reverse entries ≡ [] = ap reverse e in inl (ground arith, rw e tt)
    | inr (x, xs, e) ↦
        let some_left : 0 < length entries = rw e (omega arith) in
        inr
          (entries, [], sym (append-nil entries), ground arith, some_left, inl (ground arith, refl))
  ]
  | inr from ↦ elim (seek_back_lem (put_uint64 start) entries []) [
    | inl (e, are) ↦ inl (ground arith, are)
    | inr (below, found, later, split, are, stop, e) ↦
        let back = reverse-append below (found ∷ []) in
        inr (
          below ++ (found ∷ []),
          later,
          split ∙ sym (append_assoc below (found ∷ []) later),
          ground (arith, back),
          length-snoc below found,
          inr (below, found, refl, are, stop),
        )
  ]
]

at_cursor_lem : (entries : Entries) → 0 < length entries → at_cursor entries ≡ entries
unfolding at_cursor
at_cursor_lem [] h = absurd (omega arith)
at_cursor_lem (e ∷ entries) h = refl

take_one : (amount : ℕ) (e : Bytes × Bytes) → 0 < amount → take amount (e ∷ []) ≡ e ∷ []
take_one zero e h = absurd (omega arith)
take_one (suc zero) e h = refl
take_one (suc (suc n)) e h = refl

some_page :
    (amount : ℕ) (upto past page : Entries)
    → upto ≡ past ++ page
    → 0 < amount
    → 0 < length upto
    → (length page ≡ amount) ⊎ (past ≡ [])
    → 0 < length page
some_page amount upto past page parts some_amount some_entry (inl e) = omega arith
some_page amount upto past page parts some_amount some_entry (inr e) =
    let same : upto ≡ page = parts ∙ ap (λ l. l ++ page) e in rw same at some_entry

module _ (T : Transactions DbError) (B : Buckets DbError) (N : Nested DbError B.Bucket B.empty)
    (V : Vault) (J : MessageJson) where
  messages_read :
      (sort : List Message → List Message)
      → ((ms : List Message) → Perm (sort ms) ms)
      → (partner : Bytes) (start amount : ℕ) (s : Option N.Outer) (ms : List Message)
      → messages T B N V J sort partner start amount s ≡ (ms, none)
      → (read : List Message) × Perm ms read
        × (0 < amount)
        × (read_all T B N V J (take amount (positions T B N V J partner start s)) ≡ ok read)
  unfolding messages
  messages_read sort same partner start amount s ms h = elim (Bool-cases (nat_beq amount 0)) [
    | inl e ↦ absurd (ground arith)
    | inr e ↦
        let read = read_back T B N V J amount (positions T B N V J partner start s) in
        let sorted : ms ≡ sort read.0 = ground arith in
        (
          read.0,
          rw sorted (same read.0),
          ground arith,
          read_back-read_all T B N V J amount (positions T B N V J partner start s) (ground arith),
        )
  ]

  -- Where sorting keeps the elements of a list, the messages that `Messages` returns without an
  -- error for a partner with a bucket are, in some order, the decrypted last `amount` entries of
  -- that bucket, or all where there are fewer, up to its end for a start of 0 and otherwise up to
  -- the first entry whose key is not before the start. Where there is no such entry, they are
  -- what the nil value is decrypted to.
  pub messages-IsPage :
      (sort : List Message → List Message)
      → ((ms : List Message) → Perm (sort ms) ms)
      → (partner : Bytes) (start amount : ℕ) (o : N.Outer) (b : B.Bucket) (ms : List Message)
      → N.bucket partner o ≡ some b
      → messages T B N V J sort partner start amount (some o) ≡ (ms, none)
      → (read : List Message) × Perm ms read
        × (((page : Entries) × IsPage start amount (B.entries b) page
              × (0 < length page)
              × (read_all T B N V J (reverse page) ≡ ok read))
            ⊎ (IsNowhere start (B.entries b) × (read_all T B N V J (([], []) ∷ []) ≡ ok read)))
  unfolding positions at_cursor
  messages-IsPage sort same partner start amount o b ms is_b h =
      let (read, perm, some_amount, e) =
        messages_read sort same partner start amount (some o) ms h in
      let entries = B.entries b in
      let at : positions T B N V J partner start (some o) ≡ at_cursor (backwards start entries) =
        ground arith in
      elim (backwards_cases start entries) [
        | inl (nothing, nowhere) ↦
            let nil : take amount (positions T B N V J partner start (some o)) ≡ ([], []) ∷ [] =
              ap (take amount) (at ∙ ap at_cursor nothing) ∙ take_one amount ([], []) some_amount in
            (read, perm, inr (nowhere, rw nil at e))
        | inr (upto, later, split, back, some_entry, place) ↦
            let (past, page, parts, taken, short, full) = take-reverse amount upto in
            let shown : take amount (positions T B N V J partner start (some o)) ≡ reverse page =
              ap (take amount) (
                at
                ∙ ap at_cursor back
                ∙ at_cursor_lem (reverse upto) (omega (arith, length-reverse upto)))
              ∙ taken in
            (
              read,
              perm,
              inl (
                page,
                record {
                  past = past;
                  later = later;
                  split = split ∙ ap (λ l. l ++ later) parts ∙ append_assoc past page later;
                  place = rw parts at place;
                  short = short;
                  full = full;
                },
                some_page amount upto past page parts some_amount some_entry full,
                rw shown at e,
              ),
            )
      ]
