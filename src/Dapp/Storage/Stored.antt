-- ===== src/Dapp/Storage/Stored.antt =====
-- Which DApps the storage holds.
use panthalassa.Base.{
  All, ◌≡◌, refl, true, false, Option, none, some, List, [], ◌∷◌, arith, Bytes, bytes_beq,
  bytes_beq_iff, bytes_eq, if◌then◌else◌, ok, Result-cases, Bool-cases, Option-cases, inl, inr,
}
use panthalassa.Bolt.{Transactions, Buckets, change, update-change}
use panthalassa.Bolt.Within.{change_ok}
use panthalassa.Identity.{Signing}
use panthalassa.Dapp.Data.{Data, verify_signature}
use panthalassa.Dapp.Storage.{
  StorageError, DappJson, bucket_or_empty, is_too_low, save_body, save_dapp, read_dapp, raw_dapp,
  get, save_all,
}

module _ (T : Transactions StorageError) (B : Buckets StorageError) (S : Signing)
    (J : DappJson) where
  get-bucket_or_empty :
      (key : Bytes) (s : Option B.Bucket)
      → B.get key (bucket_or_empty T B S J s) ≡ raw_dapp T B S J key s
  unfolding raw_dapp bucket_or_empty
  get-bucket_or_empty key none = B.get-empty key
  get-bucket_or_empty key (some b) = refl

  -- A saved DApp passed the checks, and its bytes lie under its key.
  save_body-ok :
      (d : Data) (s t : Option B.Bucket)
      → save_body T B S J d s ≡ ok t
      → (raw : Bytes) × (is_too_low T B S J d.version ≡ false)
        × (verify_signature S d ≡ ok true)
        × (J.marshal d ≡ ok raw)
        × ((key : Bytes)
            → raw_dapp T B S J key t
              ≡ (if bytes_beq d.used_signing_key key then some raw else raw_dapp T B S J key s))
  unfolding save_body raw_dapp
  save_body-ok d s t h = elim (Bool-cases (is_too_low T B S J d.version)) [
    | inl low ↦ absurd (ground arith)
    | inr high ↦ elim (Result-cases (verify_signature S d)) [
      | inr (e, a) ↦ absurd (ground arith)
      | inl (false, a) ↦ absurd (ground arith)
      | inl (true, a) ↦ elim (Result-cases (J.marshal d)) [
        | inr (e, c) ↦ absurd (ground arith)
        | inl (raw, c) ↦
            let before = bucket_or_empty T B S J s in
            elim (Result-cases (B.put d.used_signing_key raw before)) [
              | inr (e, p) ↦ absurd (ground arith)
              | inl (b, p) ↦ (
                raw,
                high,
                a,
                c,
                λ key. ground (
                  arith,
                  B.get-put d.used_signing_key key raw before b,
                  get-bucket_or_empty key s,
                ),
              )
            ]
      ]
    ]
  ]

  -- After `SaveDApp` returned no error for a DApp whose names are texts in UTF-8, `Get` finds
  -- that DApp under its signing key, and finds under every other key what it found before.
  pub get-save_dapp :
      (d : Data) (s t : Option B.Bucket)
      → save_dapp T B S J d s ≡ (ok tt, t)
      → J.is_text d ≡ true
      → (get T B S J d.used_signing_key t ≡ ok (some d))
        × ((key : Bytes)
            → bytes_beq d.used_signing_key key ≡ false
            → get T B S J key t ≡ get T B S J key s)
  unfolding save_dapp get read_dapp
  get-save_dapp d s t h text =
      let (raw, high, valid, marshalled, holds) =
        save_body-ok d s t (change_ok T (save_body T B S J d) s t h) in
      (
        ground (
          arith,
          holds d.used_signing_key,
          bytes_beq_iff d.used_signing_key d.used_signing_key,
          J.unmarshal-marshal d raw text marshalled,
        ),
        λ key other. ground (arith, holds key),
      )

  -- A DApp that may be in the storage under a key.
  abbrev pub IsStored : Bytes → Data → Type 0
  IsStored key d =
      (d.used_signing_key ≡ key)
      × (verify_signature S d ≡ ok true)
      × (is_too_low T B S J d.version ≡ false)

  abbrev AllStored : Option B.Bucket → Type 0
  AllStored s =
      (key raw : Bytes) (d : Data)
      → raw_dapp T B S J key s ≡ some raw
      → J.unmarshal raw ≡ ok d
      → IsStored key d

  save_dapp-AllStored :
      (d : Data) (s : Option B.Bucket)
      → J.is_text d ≡ true
      → AllStored s
      → AllStored (save_dapp T B S J d s).1
  unfolding save_dapp change
  save_dapp-AllStored d s text inv key raw other h u =
      let update = update-change T (save_body T B S J d) s in
      elim (Result-cases (save_body T B S J d s)) [
        | inr (e, a) ↦ inv key raw other (ground arith) u
        | inl (t, a) ↦
            let (bytes, high, valid, marshalled, holds) = save_body-ok d s t a in
            elim (Bool-cases (bytes_beq d.used_signing_key key)) [
              | inr b ↦ inv key raw other (ground (arith, holds key)) u
              | inl b ↦
                  let same = (bytes_beq_iff d.used_signing_key key).0 b in
                  let back = J.unmarshal-marshal d bytes text marshalled in
                  let found = holds key in
                  let is_raw : raw ≡ bytes = ground arith in
                  let is_d : other ≡ d = ground arith in (ground arith, ground arith, ground arith)
            ]
      ]

  save_all-AllStored :
      (ds : List Data) (s : Option B.Bucket)
      → All (λ (d : Data). J.is_text d ≡ true) ds
      → AllStored s
      → AllStored (save_all T B S J ds s)
  unfolding save_all
  save_all-AllStored [] s text inv = inv
  save_all-AllStored (d ∷ ds) s text inv =
      save_all-AllStored ds (save_dapp T B S J d s).1 text.1 (save_dapp-AllStored d s text.0 inv)

  -- After any calls of `SaveDApp` on a new storage, with DApps whose names are texts in UTF-8, a
  -- DApp that `Get` returns has the key that was asked for, a version of at least 1 as a signed
  -- number, and a signature that verifies.
  pub get-save_all :
      (ds : List Data) (key : Bytes) (d : Data)
      → All (λ (d : Data). J.is_text d ≡ true) ds
      → get T B S J key (save_all T B S J ds none) ≡ ok (some d)
      → IsStored key d
  unfolding get read_dapp
  get-save_all ds key d text h =
      let kept = save_all T B S J ds none in
      elim (Option-cases (raw_dapp T B S J key kept)) [
        | inl a ↦ absurd (ground arith)
        | inr (raw, a) ↦ elim (Result-cases (J.unmarshal raw)) [
          | inr (e, b) ↦ absurd (ground arith)
          | inl (other, b) ↦
              save_all-AllStored ds none text
                (λ k r o e u. absurd (unfold raw_dapp in ground arith)) key raw d a (ground arith)
        ]
      ]
