-- ===== src/Chat/NewPreKeys/Published.antt =====
-- What the backend gets for its request for one time pre keys.
use mathlib.Core.Path.{subst}
use panthalassa.Base.{
  ℕ, zero, suc, ◌≤◌, ◌≡◌, refl, ap, inl, inr, true, Option, some, List, [], ◌∷◌, All, arith, Bytes,
  length, Result, ok, Result-cases,
}
use panthalassa.Crypto.Aes.{AesError}
use panthalassa.KeyManager.{KeyManager, identity_sign}
use panthalassa.Bolt.{Transactions, Buckets}
use panthalassa.Identity.{Signing}
use panthalassa.Identity.PreKey.{
  PreKey, ProtoPreKey, sign, to_protobuf, from_protobuf, verify_signature, owner_key,
}
use panthalassa.Identity.PreKey.Signed.{verify_signature-published, sign_keeps}
use panthalassa.Db.Vault.{Vault, DbError}
use panthalassa.Db.OneTimePreKeys.{KeyPair, put}
use panthalassa.Chat.NewPreKeys.{
  generate, with_random, unsigned, sign_one, sign_all, publish, one_time_pre_keys_handler,
}

length-generate :
    (key_pair : ℕ → Result ℕ KeyPair) (left round : ℕ) (pairs : List KeyPair)
    → generate key_pair left round ≡ ok pairs
    → length pairs ≡ left
unfolding generate
length-generate key_pair zero round pairs h = ground arith
length-generate key_pair (suc left) round pairs h = elim (Result-cases (key_pair round)) [
  | inr (e, k) ↦ absurd (ground arith)
  | inl (pair, k) ↦ elim (Result-cases (generate key_pair left (suc round))) [
    | inr (e, g) ↦ absurd (ground arith)
    | inl (rest, g) ↦ ground (arith, length-generate key_pair left (suc round) rest g)
  ]
]

All-generate :
    (P : KeyPair → Type 0) (key_pair : ℕ → Result ℕ KeyPair) (left round : ℕ) (pairs : List KeyPair)
    → ((i : ℕ) (pair : KeyPair) → key_pair i ≡ ok pair → P pair)
    → generate key_pair left round ≡ ok pairs
    → All P pairs
unfolding generate
All-generate P key_pair zero round pairs all h =
    let same : [] ≡ pairs = ground arith in subst (All P) same tt
All-generate P key_pair (suc left) round pairs all h = elim (Result-cases (key_pair round)) [
  | inr (e, k) ↦ absurd (ground arith)
  | inl (pair, k) ↦ elim (Result-cases (generate key_pair left (suc round))) [
    | inr (e, g) ↦ absurd (ground arith)
    | inl (rest, g) ↦
        let same : pair ∷ rest ≡ pairs = ground arith in
        subst (All P) same (all round pair k, All-generate P key_pair left (suc round) rest all g)
  ]
]

-- The signatures of the account verify under the key `owner`, which is its own.
module _ (S : Signing) (km : KeyManager) (owner : Bytes) (own : owner_key km ≡ ok owner)
    (law : (text signature : Bytes)
      → identity_sign S.sign km text ≡ ok signature
      → S.verify owner text signature ≡ true) where
  -- A pre key that whoever reads it can verify.
  abbrev pub IsPublished : KeyPair → ProtoPreKey → Type 0
  IsPublished pair m =
      (m.key ≡ pair.public_key)
      × (q : PreKey) × (from_protobuf m ≡ ok q)
      × (verify_signature S q owner ≡ ok true)

  abbrev pub ArePublished : List KeyPair → List ProtoPreKey → Type 0
  ArePublished [] [] = Unit
  ArePublished [] (m ∷ ms) = ⊥
  ArePublished (p ∷ ps) [] = ⊥
  ArePublished (p ∷ ps) (m ∷ ms) = IsPublished p m × ArePublished ps ms

  sign_one_ok :
      (pair : KeyPair) (m : ProtoPreKey)
      → length pair.public_key ≡ 32
      → sign_one S km pair ≡ ok m
      → IsPublished pair m
  unfolding sign_one unsigned to_protobuf
  sign_one_ok pair m fits h = elim (Result-cases (sign S km (unsigned pair))) [
    | inr (e, s) ↦ absurd (ground arith)
    | inl (q, s) ↦
        let (same, whose) = sign_keeps S km (unsigned pair) q s in
        let mine : q.identity_public_key ≡ owner = ground arith in
        let (r, read, verified) =
          verify_signature-published S km (unsigned pair) q fits s (rw mine law) in
        (ground arith, r, ground arith, ground arith)
  ]

  sign_all_ok :
      (pairs : List KeyPair) (ms : List ProtoPreKey)
      → All (λ p. length p.public_key ≡ 32) pairs
      → sign_all S km pairs ≡ ok ms
      → ArePublished pairs ms
  unfolding sign_all
  sign_all_ok [] [] fits h = tt
  sign_all_ok [] (m ∷ ms) fits h = absurd (ground arith)
  sign_all_ok (p ∷ ps) ms fits h = elim (Result-cases (sign_one S km p)) [
    | inr (e, o) ↦ absurd (ground arith)
    | inl (m, o) ↦ elim (Result-cases (sign_all S km ps)) [
      | inr (e, a) ↦ absurd (ground arith)
      | inl (rest, a) ↦
          let same : m ∷ rest ≡ ms = ground arith in
          subst (ArePublished (p ∷ ps)) same
            (sign_one_ok p m fits.0 o, sign_all_ok ps rest fits.1 a)
    ]
  ]

  length-ArePublished :
      (pairs : List KeyPair) (ms : List ProtoPreKey)
      → ArePublished pairs ms
      → length ms ≡ length pairs
  length-ArePublished [] [] h = refl
  length-ArePublished [] (m ∷ ms) h = absurd h
  length-ArePublished (p ∷ ps) [] h = absurd h
  length-ArePublished (p ∷ ps) (m ∷ ms) h = ap suc (length-ArePublished ps ms h.1)

  module _ (T : Transactions DbError) (B : Buckets DbError) (V : Vault)
      (key_pair : ℕ → Result ℕ KeyPair) (random : ℕ → Result AesError Bytes) where
    -- A request for one time pre keys that is answered without an error asked for at most 100,
    -- and gets that many: each is the public key of a pair that `Put` stored, and verifies
    -- under the account's key at whoever reads it, where generated public keys have 32 bytes
    -- and the account's signatures verify under its key.
    pub one_time_pre_keys_handler_ok :
        (wanted : ℕ) (s t : Option B.Bucket) (ms : List ProtoPreKey)
        → ((i : ℕ) (pair : KeyPair) → key_pair i ≡ ok pair → length pair.public_key ≡ 32)
        → one_time_pre_keys_handler S km T B V key_pair random wanted s ≡ (ok (some ms), t)
        → (pairs : List KeyPair) × (wanted ≤ 100)
          × (length ms ≡ wanted)
          × ArePublished pairs ms
          × (put T B V (with_random random 0 pairs) s ≡ (ok tt, t))
    unfolding one_time_pre_keys_handler publish
    one_time_pre_keys_handler_ok wanted s t ms fits h =
        elim (Result-cases (generate key_pair wanted 0)) [
          | inr (e, g) ↦ absurd (ground arith)
          | inl (pairs, g) ↦ elim (Result-cases (put T B V (with_random random 0 pairs) s).0) [
            | inr (e, p) ↦ absurd (ground arith)
            | inl (tt, p) ↦ elim (Result-cases (sign_all S km pairs)) [
              | inr (e, a) ↦ absurd (ground arith)
              | inl (signed, a) ↦
                  let all =
                    sign_all_ok pairs signed
                      (All-generate (λ q. length q.public_key ≡ 32) key_pair wanted 0 pairs fits g)
                      a in
                  let same : signed ≡ ms = ground arith in
                  let counted = length-ArePublished pairs signed all in
                  (
                    pairs,
                    ground arith,
                    ground (arith, length-generate key_pair wanted 0 pairs g),
                    subst (ArePublished pairs) same all,
                    ground arith,
                  )
            ]
          ]
        ]
