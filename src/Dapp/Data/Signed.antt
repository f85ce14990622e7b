-- ===== src/Dapp/Data/Signed.antt =====
-- What the signature of a DApp covers.
use panthalassa.Base.{◌≡◌, refl, ◌++◌, Bytes}
use mathlib.Core.List.{append_assoc}
use panthalassa.Identity.{Signing}
use panthalassa.Dapp.Data.{Data, hash_input, hash, verify_signature}

hash_input-moved :
    (d : Data) (code moved image : Bytes)
    → hash_input (record d { code = code ++ moved; image = image })
      ≡ hash_input (record d { code = code; image = moved ++ image })
unfolding hash_input
hash_input-moved d code moved image = simp (append_assoc)

-- The boundary between code and image is not signed: with the end of the code moved to the front of
-- the image, the check of the signature has the same result.
pub verify_signature-moved :
    (S : Signing) (d : Data) (code moved image : Bytes)
    → verify_signature S (record d { code = code ++ moved; image = image })
      ≡ verify_signature S (record d { code = code; image = moved ++ image })
unfolding verify_signature hash
verify_signature-moved S d code moved image = rw (hash_input-moved d code moved image) refl
