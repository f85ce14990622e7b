-- ===== src/Callbacks/Registry.antt =====
-- The functions that a DApp registers and the limit on them.
use panthalassa.Base.{
  ℕ, ◌+◌, ◌<◌, ◌≤◌, ◌^◌, ◌≡◌, Bool, true, false, none, some, List, [], ◌∷◌, arith, lookup, nat_eq,
  nat_beq, nat_beq_iff, word, length, if◌then◌else◌, ok, IsDistinct, IsDistinct-insert,
  IsDistinct-remove, length-insert, length-remove, lookup-insert, lookup-remove, Option-cases, inl,
  inr, refl,
}
use panthalassa.Limits.Count.{new_count}
use panthalassa.Limits.Count.Sequential.{increase_lem, decrease_lem}
use panthalassa.Callbacks.{
  Module, new_module, add_function, delete_function, fetch_function, Request, serve, serve_all, add,
  delete, fetch, add_cb, remove_cb, shut,
}

module _ (Fn : Type 0) where
  -- The limiter counts the registered functions.
  pub record IsCounted (m : Module Fn) : Type 0 where
    pub distinct : IsDistinct m.functions
    pub counted : m.req_lim.count ≡ length m.functions
    pub same_max : m.req_lim.max ≡ 10000
    pub within : length m.functions ≤ 10000

  add-IsCounted : (fn : Fn) (m : Module Fn) → IsCounted m → IsCounted (add_function Fn fn m).1
  unfolding add_function
  add-IsCounted fn m h =
      let id = word (m.id_count + 1) in
      elim (Option-cases (lookup id m.functions)) [
        | inr (other, taken) ↦ rw (taken, add_function) h
        | inl free ↦
            let small : m.req_lim.max < 2 ^ 64 = rw h.same_max (omega arith) in
            elim (increase_lem m.req_lim small) [
              | inl (full, e) ↦
                  rw (free, add_function)
                    (rw e (record {
                      distinct = h.distinct;
                      counted = h.counted;
                      same_max = h.same_max;
                      within = h.within;
                    }))
              | inr (room, e) ↦
                  rw (free, add_function)
                    (rw e (record {
                      distinct = IsDistinct-insert id fn m.functions free h.distinct;
                      counted = ground (arith, h.counted, length-insert id fn m.functions free);
                      same_max = h.same_max;
                      within = omega (
                        arith,
                        h.counted,
                        h.same_max,
                        room,
                        length-insert id fn m.functions free,
                      );
                    }))
            ]
      ]

  delete-IsCounted : (id : ℕ) (m : Module Fn) → IsCounted m → IsCounted (delete_function Fn id m)
  unfolding delete_function
  delete-IsCounted id m h = elim (Option-cases (lookup id m.functions)) [
    | inl missing ↦ rw (missing, delete_function) h
    | inr (fn, found) ↦
        let shorter = length-remove id fn m.functions h.distinct found in
        rw (found, delete_function)
          (rw (decrease_lem m.req_lim) (record {
            distinct = IsDistinct-remove id m.functions h.distinct;
            counted = omega (arith, h.counted, shorter);
            same_max = h.same_max;
            within = omega (arith, h.within, shorter);
          }))
  ]

  unless-IsCounted :
      (b : Bool) {m n : Module Fn} → IsCounted m → IsCounted n → IsCounted (if b then m else n)
  unless-IsCounted true hm hn = hm
  unless-IsCounted false hm hn = hn

  IsCounted-same :
      {m n : Module Fn}
      → n.functions ≡ m.functions
      → n.req_lim ≡ m.req_lim
      → IsCounted m
      → IsCounted n
  IsCounted-same {m} {n} f r h = record {
    distinct = rw f h.distinct;
    counted = rw (f, r) h.counted;
    same_max = rw r h.same_max;
    within = rw f h.within;
  }

  serve-IsCounted : (r : Request Fn) (m : Module Fn) → IsCounted m → IsCounted (serve Fn r m)
  unfolding serve
  serve-IsCounted (add fn) m h = unless-IsCounted m.closed h (add-IsCounted fn m h)
  serve-IsCounted (delete id) m h = unless-IsCounted m.closed h (delete-IsCounted id m h)
  serve-IsCounted (fetch id) m h = h
  serve-IsCounted (add_cb cb) m h = unless-IsCounted m.closed h (IsCounted-same refl refl h)
  serve-IsCounted (remove_cb cb) m h = unless-IsCounted m.closed h (IsCounted-same refl refl h)
  serve-IsCounted shut m h = unless-IsCounted m.closed h (IsCounted-same refl refl h)

  run-IsCounted :
      (rs : List (Request Fn)) (m : Module Fn) → IsCounted m → IsCounted (serve_all Fn rs m)
  unfolding serve_all
  run-IsCounted [] m h = h
  run-IsCounted (r ∷ rs) m h = run-IsCounted rs (serve Fn r m) (serve-IsCounted r m h)

  -- After any requests to a new module, no id is registered twice, the limiter's counter is the
  -- number of the registered functions, and that is at most 10000.
  pub serve_all-IsCounted : (rs : List (Request Fn)) → IsCounted (serve_all Fn rs (new_module Fn))
  serve_all-IsCounted rs = run-IsCounted rs (new_module Fn) (
      unfold new_module new_count in
      record { distinct = tt; counted = refl; same_max = refl; within = omega arith })

  -- A function that was registered without an error is fetched under its id, which was free, and
  -- every other id gives what it gave.
  pub fetch-add_function :
      (fn : Fn) (m n : Module Fn) (id : ℕ)
      → add_function Fn fn m ≡ (ok id, n)
      → (fetch_function Fn id m ≡ none)
        × ((j : ℕ)
            → fetch_function Fn j n ≡ (if nat_beq id j then some fn else fetch_function Fn j m))
  unfolding add_function fetch_function
  fetch-add_function fn m n id h =
      (ground arith, λ j. ground (arith, lookup-insert id j fn m.functions))

  -- After `unRegisterFunction` the id is not found, and every other id gives what it gave.
  fetch-delete_function :
      (id j : ℕ) (m : Module Fn)
      → fetch_function Fn j (delete_function Fn id m)
        ≡ (if nat_beq id j then none else fetch_function Fn j m)
  unfolding delete_function fetch_function
  fetch-delete_function id j m = ground (arith, lookup-remove id j m.functions, nat_beq_iff id j)
