-- ===== src/Tests/OneTime.antt =====
-- Tests of the one time pre keys.
use panthalassa.Base.{
  ◌≡◌, refl, Option, none, some, List, [], ◌∷◌, arith, Bytes, replicate, Result, ok, insert,
  bytes_beq,
}
use panthalassa.Crypto.Aes.{AesError}
use panthalassa.Db.Vault.{DbError, seal}
use panthalassa.Db.OneTimePreKeys.{KeyPair, cut, put, put_update}
use panthalassa.Db.OneTimePreKeys.CutOnce.{cut-put, last_private}
use panthalassa.Tests.Models.{run_update, transactions, buckets, Pairs, put_pair}
use panthalassa.Tests.Texts.{plain_vault, plain_encrypt, plain_marshal}

abbrev pairs : List (Result AesError Bytes × KeyPair)
pairs =
    (ok [], record { public_key = 1 ∷ []; private_key = replicate 32 4 })
    ∷ (ok [], record { public_key = 2 ∷ []; private_key = replicate 32 5 })
    ∷ []

abbrev stored : Option Pairs
stored = some ((1 ∷ [], replicate 32 4) ∷ (2 ∷ [], replicate 32 5) ∷ [])

cut-put_example :
    (u : Option Pairs) × (cut (transactions DbError) buckets plain_vault (1 ∷ []) stored
      ≡ (ok (some (replicate 32 4)), u))
    × (cut (transactions DbError) buckets plain_vault (1 ∷ []) u ≡ (ok none, u))
    × ((cut (transactions DbError) buckets plain_vault (2 ∷ []) u).0 ≡ ok (some (replicate 32 5)))
unfolding put last_private run_update put_update seal plain_encrypt plain_marshal put_pair insert
    bytes_beq
cut-put_example =
    cut-put (transactions DbError) buckets plain_vault pairs none stored (1 ∷ []) (replicate 32 4)
      (2 ∷ []) (replicate 32 5) (((refl, omega arith), ((refl, omega arith), tt))) refl refl refl
      (λ e. cc)
