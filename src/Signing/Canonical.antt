-- ===== src/Signing/Canonical.antt =====
-- The HMAC over the canonical form of an envelope: core/backup/signing.py.
use df_local_foundation.Prelude.{ℕ, ◌≡◌, true, List, arith, eq_iff, eq_refl}
use df_local_foundation.Runtime.{ok}
use df_local_foundation.Storage.{Json, text, Object, Codec}
use df_local_foundation.Signing.{sign_envelope, verify_envelope}

-- The digests are ASCII, as hexadecimal digits are.
abbrev pub MacIsAscii : Codec → Type 0
MacIsAscii codec = (key message : List ℕ) → codec.is_ascii (codec.mac key message) ≡ true

-- A claimed HMAC is accepted only if it is the one that signing the same fields gives.
pub verified_is_signed :
    (codec : Codec) (d : Object) (claimed : Json) (key : List ℕ)
    → verify_envelope codec d claimed key ≡ ok tt
    → claimed ≡ text (sign_envelope codec d key)
unfolding verify_envelope
verified_is_signed codec d (text c) key h = ground (arith, eq_iff (sign_envelope codec d key) c)
verified_is_signed codec d _ key h = ground arith

-- What was signed is accepted.
pub signed_is_verified :
    (codec : Codec) (d : Object) (key : List ℕ)
    → MacIsAscii codec
    → verify_envelope codec d (text (sign_envelope codec d key)) key ≡ ok tt
unfolding verify_envelope
signed_is_verified codec d key ascii = let hmac = sign_envelope codec d key in rw (ascii, eq_refl)
