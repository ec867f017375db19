-- ===== src/Radius/Result.antt =====
-- The errors of pkg/radius, and Go's (value, error) pair as a result.
-- `fmt.Errorf("...: %w", err)` keeps the error that it wraps; the text added is not modelled.
use radstorm.Prelude.{◌≡◌, refl}

pub data Error : Type 0 where
  value_too_long : Error  -- attribute value over 253 bytes
  not_ipv4 : Error
  truncated_attribute : Error  -- ErrTruncatedAttribute
  packet_too_short : Error  -- ErrPacketTooShort
  packet_too_long : Error  -- ErrPacketTooLong
  length_mismatch : Error  -- ErrLengthMismatch
  unknown_code : Error  -- ErrUnknownCode
  invalid_message_auth_length : Error  -- ErrInvalidMessageAuthLength
  secret_required : Error
  encoded_too_long : Error
  random_unavailable : Error
  password_too_long : Error
  bad_ciphertext_length : Error
  vsa_too_long : Error
  invalid_vsa : Error  -- ErrInvalidVSA
  credential_in_extras : Error
  nil_request : Error
  out_of_fuel : Error  -- no Go value: a loop of the model ran out of fuel

pub data Result {κ} (T : Type κ) : Type κ where
  err : Error → Result T
  ok : T → Result T

-- The chain of calls that return at the first error.
infixl 5 ◌>>=◌
abbrev pub ◌>>=◌ {κ μ} : {S : Type κ} {T : Type μ} → Result S → (S → Result T) → Result T
err why >>= next = err why
ok value >>= next = next value

-- Where the chain succeeds, so did its first call.
pub >>=-eq-ok {κ μ} :
    {S : Type κ} {T : Type μ} (first : Result S) (next : S → Result T) {final : T}
    → (first >>= next) ≡ ok final
    → (value : S) × (first ≡ ok value) × (next value ≡ ok final)
>>=-eq-ok (err why) next h = cc
>>=-eq-ok (ok value) next h = (value, refl, h)

pub ok_injective {κ} : {T : Type κ} {x y : T} → ok x ≡ ok y → y ≡ x
ok_injective h = cc
