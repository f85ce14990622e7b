-- ===== src/Tests/Models.antt =====
-- Concrete functions for bbolt.
use panthalassa.Base.{
  ◌≡◌, refl, none, some, [], map, arith, Bytes, bytes_beq, bytes_beq_iff, Assoc, lookup, insert,
  remove, bytes_eq, lookup-insert, lookup-remove, if◌then◌else◌, Result, ok, err,
}
use panthalassa.Bolt.{Transactions, Buckets, Nested}
use panthalassa.Db.Vault.{DbError}

module _ {E : Type 0} where
  unfoldable pub run_update : {S R : Type 0} → S → Result E R × S → Result E R × S
  run_update s (ok a, t) = (ok a, t)
  run_update s (err e, t) = (err e, s)

  pub commits :
      (S R : Type 0) (f : S → Result E R × S) (s t : S) (a : R)
      → f s ≡ (ok a, t)
      → run_update s (f s) ≡ (ok a, t)
  unfolding run_update
  commits S R f s t a h = rw h

  pub rolls_back :
      (S R : Type 0) (f : S → Result E R × S) (s t : S) (e : E)
      → f s ≡ (err e, t)
      → run_update s (f s) ≡ (err e, s)
  unfolding run_update
  rolls_back S R f s t e h = rw h

abbrev pub transactions : (E : Type 0) → Transactions E
transactions E = record {
  update = λ S R f s. run_update s (f s);
  update_commit = commits;
  update_rollback = rolls_back;
}

abbrev pub Pairs : Type 0
Pairs = Assoc Bytes Bytes

module _ {E : Type 0} where
  unfoldable pub put_pair : Bytes → Bytes → Pairs → Result E Pairs
  put_pair k v b = ok (insert k v b)

  pub put_lem :
      (k j v : Bytes) (b c : Pairs)
      → put_pair k v b ≡ ok c
      → lookup j c ≡ (if bytes_beq k j then some v else lookup j b)
  unfolding put_pair
  put_lem k j v b c h = ground (arith, lookup-insert k j v b)

  unfoldable pub delete_pair : Bytes → Pairs → Result E Pairs
  delete_pair k b = ok (remove k b)

  pub delete_lem :
      (k j : Bytes) (b c : Pairs)
      → delete_pair k b ≡ ok c
      → lookup j c ≡ (if bytes_beq k j then none else lookup j b)
  unfolding delete_pair
  delete_lem k j b c h = ground (arith, lookup-remove k j b)

  pub delete_done : (k : Bytes) (b : Pairs) → (c : Pairs) × (delete_pair k b ≡ ok c)
  unfolding delete_pair
  delete_done k b = (remove k b, refl)

pub nothing_stored : (k : Bytes) → lookup k (let b : Pairs = [] in b) ≡ none
nothing_stored k = unfold lookup in refl

pub same_entry : (k : Bytes) (b : Pairs) → lookup k b ≡ lookup k b
same_entry k b = refl

abbrev pub buckets_of : (E : Type 0) → Buckets E
buckets_of E = record {
  Bucket = Pairs;
  empty = [];
  get = lookup;
  put = put_pair;
  delete = delete_pair;
  entries = λ b. b;
  get-empty = nothing_stored;
  get-put = put_lem;
  get-delete = delete_lem;
  delete_ok = delete_done;
  lookup-entries = same_entry;
}

abbrev pub buckets : Buckets DbError
buckets = buckets_of DbError

abbrev pub Chats : Type 0
Chats = Assoc Bytes Pairs

unfoldable pub create_chat : Bytes → Chats → Result DbError Chats
create_chat k o = elim (lookup k o) [ none ↦ ok (insert k [] o) | some i ↦ ok o ]

pub create_lem :
    (k j : Bytes) (o p : Chats)
    → create_chat k o ≡ ok p
    → lookup j p
      ≡ (if bytes_beq k j then some (elim (lookup k o) [ none ↦ [] | some i ↦ i ]) else lookup j o)
unfolding create_chat
create_lem k j o p h =
    ground (arith, lookup-insert k j (let b : Pairs = [] in b) o, bytes_beq_iff k j)

unfoldable pub delete_chat : Bytes → Chats → Result DbError Chats
delete_chat k o = ok (remove k o)

pub delete_chat_lem :
    (k j : Bytes) (o p : Chats)
    → delete_chat k o ≡ ok p
    → lookup j p ≡ (if bytes_beq k j then none else lookup j o)
unfolding delete_chat
delete_chat_lem k j o p h = ground (arith, lookup-remove k j o)

pub write_lem :
    (k j : Bytes) (i : Pairs) (o : Chats)
    → lookup j (insert k i o) ≡ (if bytes_beq k j then some i else lookup j o)
write_lem k j i o = lookup-insert k j i o

pub no_chat : (k : Bytes) → lookup k (let o : Chats = [] in o) ≡ none
no_chat k = unfold lookup in refl

abbrev pub nested : Nested DbError Pairs []
nested = record {
  Outer = Chats;
  none_inside = [];
  bucket = lookup;
  create_bucket = create_chat;
  write_bucket = insert;
  delete_bucket = delete_chat;
  bucket_names = map (λ e. e.0);
  bucket-none_inside = no_chat;
  bucket-create = create_lem;
  bucket-write = write_lem;
  bucket-delete = delete_chat_lem;
}
