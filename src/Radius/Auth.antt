-- ===== src/Radius/Auth.antt =====
-- pkg/radius/auth.go: authenticators, User-Password and CHAP-Password. MD5 and HMAC-MD5 come
-- from crypto/md5 and crypto/hmac, and are a parameter.
pub mod Password
use radstorm.Prelude.{
  ℕ, zero, suc, ◌+◌, ◌-◌, ◌*◌, ◌/◌, ◌%◌, ◌≡◌, Bool, not, ◌||◌, Option, none, some, List, [], ◌∷◌,
  ◌++◌, ltb, ◌==◌, if◌then◌else◌, length, take, drop, replicate, All,
}
use Prim.Native.Nat.{bit_xor}
use mathlib.Core.List.{reverse}
use radstorm.Radius.Result.{
  Result, ok, err, random_unavailable, password_too_long, bad_ciphertext_length,
}
use radstorm.Radius.Bytes.{IsByte, put_uint16}

-- The digests: sixteen bytes for every input.
pub record Crypto : Type 0 where
  pub md5 : List ℕ → List ℕ
  pub hmac_md5 : List ℕ → List ℕ → List ℕ  -- key, message
  pub md5_length : (m : List ℕ) → length (md5 m) ≡ 16
  pub md5_bytes : (m : List ℕ) → All IsByte (md5 m)
  pub hmac_length : (k m : List ℕ) → length (hmac_md5 k m) ≡ 16
  pub hmac_bytes : (k m : List ℕ) → All IsByte (hmac_md5 k m)

abbrev pub authenticator_length : ℕ
authenticator_length = 16

abbrev pub message_authenticator_length : ℕ
message_authenticator_length = 16

abbrev pub zero_auth : List ℕ
zero_auth = replicate 16 0

-- NewRequestAuthenticator; the argument is what crypto/rand delivered, `none` for its error
unfoldable pub new_request_authenticator : Option (List ℕ) → Result (List ℕ)
new_request_authenticator none = err random_unavailable
new_request_authenticator (some a) = ok a

-- The inner loop over the sixteen bytes of a block and of a digest.
unfoldable pub xor_bytes : List ℕ → List ℕ → List ℕ
xor_bytes [] ys = []
xor_bytes (x ∷ xs) [] = []
xor_bytes (x ∷ xs) (y ∷ ys) = bit_xor x y ∷ xor_bytes xs ys

-- len(p) rounded up to a multiple of 16, and 16 for the empty password
unfoldable pub padded_length : ℕ → ℕ
padded_length n = let size = (n + 15) / 16 * 16 in if size == 0 then 16 else size

drop_nuls : List ℕ → List ℕ
drop_nuls [] = []
drop_nuls (b ∷ bytes) = let rest = drop_nuls bytes in if b == 0 then rest else b ∷ bytes

-- The last loop of DecryptUserPassword, which shortens the output while its last byte is NUL.
unfoldable pub strip_nuls : List ℕ → List ℕ
unfolding drop_nuls
strip_nuls out = reverse (drop_nuls (reverse out))

module _ (crypto : Crypto) where
  open crypto use {md5, hmac_md5}

  -- The loop of EncryptUserPassword over the blocks left; `prev` is the cipher block before.
  unfoldable pub encrypt_blocks : ℕ → List ℕ → List ℕ → List ℕ → List ℕ
  unfolding xor_bytes
  encrypt_blocks zero secret prev padded = []
  encrypt_blocks (suc n) secret prev padded =
      let block = xor_bytes (take 16 padded) (md5 (secret ++ prev)) in
      block ++ encrypt_blocks n secret block (drop 16 padded)

  -- EncryptUserPassword
  unfoldable pub encrypt_user_password : List ℕ → List ℕ → List ℕ → Result (List ℕ)
  unfolding encrypt_blocks
  encrypt_user_password password secret request_authenticator =
      if ltb 128 (length password)
      then err password_too_long
      else let size = padded_length (length password) in
        let padded = password ++ replicate (size - length password) 0 in
        ok (encrypt_blocks (size / 16) secret request_authenticator padded)

  -- The loop of DecryptUserPassword over the blocks left.
  unfoldable pub decrypt_blocks : ℕ → List ℕ → List ℕ → List ℕ → List ℕ
  unfolding xor_bytes
  decrypt_blocks zero secret prev ciphertext = []
  decrypt_blocks (suc n) secret prev ciphertext =
      xor_bytes (take 16 ciphertext) (md5 (secret ++ prev))
      ++ decrypt_blocks n secret (take 16 ciphertext) (drop 16 ciphertext)

  -- DecryptUserPassword
  unfoldable pub decrypt_user_password : List ℕ → List ℕ → List ℕ → Result (List ℕ)
  unfolding decrypt_blocks strip_nuls
  decrypt_user_password ciphertext secret request_authenticator =
      if not (length ciphertext % 16 == 0) || length ciphertext == 0
      then err bad_ciphertext_length
      else ok (
          strip_nuls
            (decrypt_blocks (length ciphertext / 16) secret request_authenticator ciphertext))

  -- CHAPPassword
  unfoldable pub chap_password : ℕ → List ℕ → List ℕ → List ℕ
  chap_password chap_id password challenge = chap_id ∷ md5 (chap_id ∷ (password ++ challenge))

  -- ComputeRequestAuthenticator
  unfoldable pub compute_request_authenticator : ℕ → ℕ → ℕ → List ℕ → List ℕ → List ℕ
  compute_request_authenticator code identifier len attributes secret =
      md5 (code ∷ identifier ∷ (put_uint16 len ++ (zero_auth ++ (attributes ++ secret))))

  -- ComputeResponseAuthenticator
  unfoldable pub compute_response_authenticator : ℕ → ℕ → ℕ → List ℕ → List ℕ → List ℕ → List ℕ
  compute_response_authenticator code identifier len request_authenticator attributes secret =
      md5
        (code ∷ identifier ∷ (put_uint16 len ++ (request_authenticator ++ (attributes ++ secret))))

  -- ComputeMessageAuthenticator
  unfoldable pub compute_message_authenticator : List ℕ → List ℕ → List ℕ
  compute_message_authenticator packet secret = hmac_md5 secret packet
