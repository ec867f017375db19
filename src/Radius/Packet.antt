-- ===== src/Radius/Packet.antt =====
-- pkg/radius/packet.go: the packet, its wire encoding and decoding, and the two validations.
-- A [16]byte is a list of sixteen bytes. Encode changes the packet, so it returns it too.
pub mod Layout
pub mod Encoding
pub mod Sent
pub mod RoundTrip
pub mod Authentic
pub mod Reply
use radstorm.Prelude.{
  ℕ, zero, suc, ◌+◌, ◌%◌, Bool, true, false, ◌&&◌, ◌||◌, not, Option, none, some, List, [], ◌∷◌,
  ◌++◌, ltb, ◌==◌, if◌then◌else◌, length, take, drop, replicate, get_or, get_elem?, set,
}
use Prim.Native.Nat.{bit_or, bit_xor}
use radstorm.Radius.Result.{
  Result, ok, err, ◌>>=◌, packet_too_short, packet_too_long, length_mismatch, unknown_code,
  invalid_message_auth_length, secret_required, encoded_too_long,
}
use radstorm.Radius.Bytes.{slice, put_uint16, uint16_at}
use radstorm.Radius.Code.{
  access_request, accounting_request, coa_request, disconnect_request, is_response,
}
use radstorm.Radius.Attribute.{Attribute, AttributeList, encode_attributes, decode_attributes}
use radstorm.Radius.Auth.{
  Crypto, message_authenticator_length, zero_auth, new_request_authenticator,
  compute_request_authenticator, compute_response_authenticator, compute_message_authenticator,
}

abbrev pub message_authenticator : ℕ
message_authenticator = 80

abbrev pub min_packet_length : ℕ
min_packet_length = 20

abbrev pub max_packet_length : ℕ
max_packet_length = 4096

pub record Packet : Type 0 where
  pub code : ℕ  -- uint8
  pub identifier : ℕ  -- uint8
  pub authenticator : List ℕ  -- [16]byte
  pub attributes : AttributeList
  pub request_authenticator : List ℕ  -- [16]byte
  pub secret : List ℕ

-- isZeroAuth
unfoldable pub is_zero_auth : List ℕ → Bool
is_zero_auth [] = true
is_zero_auth (b ∷ bytes) = b == 0 && is_zero_auth bytes

-- The loop of constantTimeEqual: `v |= a[i] ^ b[i]`.
pub difference : ℕ → List ℕ → List ℕ → ℕ
difference v [] ys = v
difference v (x ∷ xs) [] = v
difference v (x ∷ xs) (y ∷ ys) = difference (bit_or v (bit_xor x y)) xs ys

-- constantTimeEqual
unfoldable pub constant_time_equal : List ℕ → List ℕ → Bool
unfolding difference
constant_time_equal a b = if length a == length b then difference 0 a b == 0 else false

-- maAttrIndex from index `i` on; `none` for -1
pub ma_index_from : ℕ → AttributeList → Option ℕ
ma_index_from i [] = none
ma_index_from i (a ∷ rest) =
    let next = ma_index_from (suc i) rest in if a.typ == message_authenticator then some i else next

-- maAttrIndex
unfoldable pub ma_attr_index : AttributeList → Option ℕ
unfolding ma_index_from
ma_attr_index list = ma_index_from 0 list

-- findMessageAuthenticatorOffset; `off` is the offset of the attributes left
unfoldable pub find_message_authenticator_offset : AttributeList → ℕ → Option ℕ
find_message_authenticator_offset [] off = none
find_message_authenticator_offset (a ∷ rest) off =
    let next = find_message_authenticator_offset rest (off + (2 + length a.value)) in
    if a.typ == message_authenticator then some (off + 2) else next

-- list[i].Value, where `i` is the index of the Message-Authenticator
unfoldable pub value_at : AttributeList → Option ℕ → List ℕ
value_at list none = []
value_at list (some i) = elim (get_elem? list i) [ none ↦ [] | some a ↦ a.value ]

-- copy(list[i].Value, mac[:]), for a value as long as `mac`
pub write_value : AttributeList → Option ℕ → List ℕ → AttributeList
write_value list none mac = list
write_value list (some i) mac = elim (get_elem? list i) [
  | none ↦ list
  | some a ↦ set list i (record a { value = mac })
]

-- copy(out[off:off+len(bytes)], bytes)
unfoldable pub overwrite : List ℕ → ℕ → List ℕ → List ℕ
overwrite out off bytes = take off out ++ (bytes ++ drop (off + length bytes) out)

-- The packet laid out: header, authenticator, attribute section.
pub layout : Packet → ℕ → List ℕ → List ℕ
layout p total_len body =
    p.code ∷ p.identifier ∷ (put_uint16 (total_len % 65536) ++ (p.authenticator ++ body))

module _ (crypto : Crypto) where
  -- The switch on the code: the Authenticator to send, from the attribute section written.
  pub authenticate : Option (List ℕ) → Packet → ℕ → List ℕ → Result (List ℕ)
  authenticate random p total_len body =
      if p.code == access_request
      then (if is_zero_auth p.authenticator
          then new_request_authenticator random
          else ok p.authenticator)
      else if p.code == accounting_request || p.code == coa_request || p.code == disconnect_request
      then ok (
          compute_request_authenticator crypto p.code p.identifier (total_len % 65536) body
            p.secret)
      else if is_response p.code
      then ok (
          compute_response_authenticator crypto p.code p.identifier (total_len % 65536)
            p.request_authenticator body p.secret)
      else err unknown_code

  -- The last part of Encode: the Message-Authenticator at the offset found, if there is one.
  pub sign : Packet → List ℕ → Option ℕ → Packet × Result (List ℕ)
  sign p out none = (p, ok out)
  sign p out (some off) =
      if length (value_at p.attributes (ma_attr_index p.attributes)) == message_authenticator_length
      then (let zeroed = overwrite out off (replicate 16 0) in
          let mac = compute_message_authenticator crypto zeroed p.secret in
          (
            record p { attributes = write_value p.attributes (ma_attr_index p.attributes) mac },
            ok (overwrite zeroed off mac),
          ))
      else (p, err invalid_message_auth_length)

  -- Encode from the authenticator on.
  pub lay_out : Packet → ℕ → List ℕ → Result (List ℕ) → Packet × Result (List ℕ)
  lay_out p total_len body (err e) = (p, err e)
  lay_out p total_len body (ok a) =
      let p' = record p { authenticator = a } in
      sign p' (layout p' total_len body) (find_message_authenticator_offset p.attributes 20)

  -- Encode from the attribute section on.
  pub encode_body : Option (List ℕ) → Packet → Result (List ℕ) → Packet × Result (List ℕ)
  encode_body random p (err e) = (p, err e)
  encode_body random p (ok body) =
      let total_len = min_packet_length + length body in
      if ltb max_packet_length total_len
      then (p, err encoded_too_long)
      else lay_out p total_len body (authenticate random p total_len body)

  -- Packet.Encode; `random` is what crypto/rand delivers
  unfoldable pub encode : Option (List ℕ) → Packet → Packet × Result (List ℕ)
  unfolding encode_body lay_out sign authenticate layout overwrite write_value value_at
      ma_attr_index
  encode random p =
      if length p.secret == 0 && not (p.code == access_request)
      then (p, err secret_required)
      else encode_body random p (encode_attributes p.attributes)

  -- Packet.ValidateMessageAuthenticator, from the index of the attribute on
  unfoldable pub validate_ma_at : Packet → List ℕ → List ℕ → Option ℕ → Bool
  validate_ma_at p wire_bytes secret none = false
  validate_ma_at p wire_bytes secret (some off) =
      if ltb (length wire_bytes) (off + message_authenticator_length)
      then false
      else constant_time_equal (value_at p.attributes (ma_attr_index p.attributes))
          (compute_message_authenticator crypto (overwrite wire_bytes off (replicate 16 0)) secret)

  -- Packet.ValidateMessageAuthenticator
  unfoldable pub validate_message_authenticator : Packet → List ℕ → List ℕ → Bool
  unfolding validate_ma_at
  validate_message_authenticator p wire_bytes secret = elim (ma_attr_index p.attributes) [
    | none ↦ false
    | some idx ↦
        if length (value_at p.attributes (some idx)) == message_authenticator_length
        then validate_ma_at p wire_bytes secret (find_message_authenticator_offset p.attributes 20)
        else false
  ]

  -- Packet.ValidateResponseAuthenticator; `none` where `wireBytes[20:declared]` is out of range of
  -- the slice, at which Go panics unless the capacity reaches further
  unfoldable pub validate_response_authenticator : Packet → List ℕ → List ℕ → List ℕ → Option Bool
  validate_response_authenticator p req_authenticator secret wire_bytes =
      if not (is_response p.code)
      then some false
      else if ltb (length wire_bytes) min_packet_length
      then some false
      else let declared = uint16_at 2 wire_bytes in
        if ltb declared 20 || ltb (length wire_bytes) declared
        then none
        else some (
            constant_time_equal p.authenticator (
              compute_response_authenticator crypto p.code p.identifier declared req_authenticator
                (slice 20 declared wire_bytes) secret))

-- Decode
unfoldable pub decode : List ℕ → List ℕ → Result Packet
decode bytes secret =
    if ltb (length bytes) min_packet_length
    then err packet_too_short
    else if ltb max_packet_length (length bytes)
    then err packet_too_long
    else let declared = uint16_at 2 bytes in
      if ltb declared min_packet_length || ltb (length bytes) declared
      then err length_mismatch
      else do
        attrs ← decode_attributes (slice 20 declared bytes)
        ok (record {
          code = get_or bytes 0 0;
          identifier = get_or bytes 1 0;
          authenticator = slice 4 20 bytes;
          attributes = attrs;
          request_authenticator = zero_auth;
          secret = secret;
        })
