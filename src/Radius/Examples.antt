-- ===== src/Radius/Examples.antt =====
-- The theorems on pkg/radius at concrete inputs, with a checksum in the place of MD5.
use radstorm.Prelude.{
  ℕ, ◌+◌, ◌*◌, ◌%◌, ◌≡◌, ◌≢◌, ◌↔◌, refl, true, false, none, some, List, [], ◌∷◌, ◌++◌, arith,
  length, replicate, length-replicate, All-replicate, All, get_or,
}
use radstorm.Radius.Result.{Result, ok, err, truncated_attribute}
use radstorm.Radius.Bytes.{IsByte, put_uint32}
use radstorm.Radius.Code.{is_response}
use radstorm.Radius.Attribute.{
  Attribute, AttributeList, get_string, encode_attributes, decode_attributes,
}
use radstorm.Radius.Attribute.Wire.{
  wire_of, decode-encode, encode-decode, Accepts, decode_attributes_cases,
  decode_attributes_refuses,
}
use radstorm.Radius.Auth.{
  Crypto, zero_auth, padded_length, strip_nuls, encrypt_user_password, decrypt_user_password,
  chap_password, compute_response_authenticator, compute_message_authenticator,
}
use radstorm.Radius.Auth.Password.{IsPadded, decrypt-encrypt_user_password}
use radstorm.Radius.Packet.{
  Packet, encode, decode, find_message_authenticator_offset, ma_attr_index, constant_time_equal,
  validate_message_authenticator, validate_response_authenticator,
}
use radstorm.Radius.Packet.RoundTrip.{decode-encode_packet}
use radstorm.Radius.Packet.Authentic.{validate_message_authenticator-encode}
use radstorm.Radius.Packet.Reply.{reply_valid, response_message, signed_reply_valid_iff}
use radstorm.Radius.Vendor.{VendorAttribute, encode_vsa, decode_vsa, decode_vsas}
use radstorm.Radius.Vendor.Wire.{decode-encode_vsa}
use radstorm.Radius.Constructors.{is_credential, new_access_request_pap, new_access_request_chap}
use radstorm.Radius.Constructors.Credentials.{
  new_access_request_pap_lem, new_access_request_chap_lem,
}

checksum : List ℕ → ℕ
checksum [] = 7
checksum (b ∷ bytes) = (b + 29 * checksum bytes + 1) % 256

checksum-IsByte : (m : List ℕ) → IsByte (checksum m)
unfolding checksum
checksum-IsByte [] = omega arith
checksum-IsByte (b ∷ bytes) = omega arith

-- Sixteen copies of a checksum meet what is assumed of a digest.
pub toy : Crypto
unfolding checksum
toy = record {
  md5 = λ m. replicate 16 (checksum m);
  hmac_md5 = λ k m. replicate 16 (checksum (k ++ m));
  md5_length = λ m. length-replicate 16 (checksum m);
  md5_bytes = λ m. All-replicate IsByte 16 (checksum m) (checksum-IsByte m);
  hmac_length = λ k m. length-replicate 16 (checksum (k ++ m));
  hmac_bytes = λ k m. All-replicate IsByte 16 (checksum (k ++ m)) (checksum-IsByte (k ++ m));
}

abbrev bytes_of : Result (List ℕ) → List ℕ
bytes_of (ok bytes) = bytes
bytes_of (err e) = []

abbrev attr : ℕ → List ℕ → Attribute
attr typ value = record { typ = typ; value = value }

abbrev alice : AttributeList
alice = attr 1 (97 ∷ 98 ∷ []) ∷ attr 5 (put_uint32 7) ∷ attr 1 [] ∷ []

decode-encode_example : decode_attributes (wire_of alice) ≡ ok alice
unfolding encode_attributes
decode-encode_example = decode-encode alice (wire_of alice) refl

decode_attributes_refuses_example :
    (decode_attributes (1 ∷ 9 ∷ 0 ∷ []) ≡ err truncated_attribute)
    ↔ ((l : AttributeList) → encode_attributes l ≢ ok (1 ∷ 9 ∷ 0 ∷ []))
decode_attributes_refuses_example = decode_attributes_refuses (1 ∷ 9 ∷ 0 ∷ []) (omega arith)

encode-decode_example : encode_attributes alice ≡ ok (wire_of alice)
encode-decode_example = encode-decode (wire_of alice) alice (omega arith) decode-encode_example

decode_attributes_cases_example : Accepts (decode_attributes (1 ∷ 9 ∷ 0 ∷ []))
decode_attributes_cases_example = decode_attributes_cases (1 ∷ 9 ∷ 0 ∷ [])

overrun_refused : decode_attributes (1 ∷ 9 ∷ 0 ∷ []) ≡ err truncated_attribute
unfolding decode_attributes
overrun_refused = refl

decrypt-encrypt_user_password_example :
    (c : List ℕ) × (encrypt_user_password toy (112 ∷ 119 ∷ 0 ∷ []) (115 ∷ []) zero_auth ≡ ok c)
    × IsPadded 3 (length c)
    × (decrypt_user_password toy c (115 ∷ []) zero_auth ≡ ok (strip_nuls (112 ∷ 119 ∷ 0 ∷ [])))
decrypt-encrypt_user_password_example =
    decrypt-encrypt_user_password toy (112 ∷ 119 ∷ 0 ∷ []) (115 ∷ []) zero_auth (omega arith)
      (omega arith)

-- An Access-Accept without, and a CoA-ACK with, a Message-Authenticator.
abbrev reply : ℕ → AttributeList → Packet
reply code attributes = record {
  code = code;
  identifier = 9;
  authenticator = zero_auth;
  attributes = attributes;
  request_authenticator = replicate 16 5;
  secret = 115 ∷ [];
}

abbrev accept : Packet
accept = reply 2 alice

abbrev ack : Packet
ack = reply 44 (attr 80 (replicate 16 0) ∷ [])

abbrev sent : Packet → Packet
sent p = (encode toy none p).0

abbrev wire : Packet → List ℕ
wire p = bytes_of (encode toy none p).1

abbrev received : Packet → Packet
received p = record {
  code = p.code;
  identifier = p.identifier;
  authenticator = (sent p).authenticator;
  attributes = (sent p).attributes;
  request_authenticator = zero_auth;
  secret = 115 ∷ [];
}

accept-sent : encode toy none accept ≡ (sent accept, ok (wire accept))
unfolding encode encode_attributes is_response compute_response_authenticator toy
    find_message_authenticator_offset
accept-sent = refl

ack-sent : encode toy none ack ≡ (sent ack, ok (wire ack))
unfolding encode encode_attributes is_response compute_response_authenticator
    compute_message_authenticator toy find_message_authenticator_offset
ack-sent = refl

decode-encode_packet_example : decode (wire accept) (115 ∷ []) ≡ ok (received accept)
decode-encode_packet_example =
    decode-encode_packet toy none accept (sent accept) (wire accept) (115 ∷ []) (omega arith) tt
      accept-sent

-- What the tests of other modules start from: a reply of 38 bytes that Decode reads.
unfoldable pub ack_bytes : List ℕ
ack_bytes = wire ack

unfoldable pub ack_packet : Packet
ack_packet = received ack

pub ack_decoded : decode ack_bytes (115 ∷ []) ≡ ok ack_packet
unfolding ack_bytes ack_packet
ack_decoded =
    decode-encode_packet toy none ack (sent ack) (wire ack) (115 ∷ []) (omega arith) tt ack-sent

ack_read : decode (wire ack) (115 ∷ []) ≡ ok (received ack)
ack_read =
    decode-encode_packet toy none ack (sent ack) (wire ack) (115 ∷ []) (omega arith) tt ack-sent

validate_message_authenticator-encode_example :
    validate_message_authenticator toy (received ack) (wire ack) (115 ∷ []) ≡ true
unfolding ma_attr_index
validate_message_authenticator-encode_example =
    validate_message_authenticator-encode toy none ack (sent ack) (received ack) (wire ack)
      (115 ∷ []) (omega arith) tt (λ e. cc) ack-sent ack_read

reply_valid_example :
    validate_response_authenticator toy (received accept) (replicate 16 5) (115 ∷ []) (wire accept)
    ≡ some true
unfolding is_response ma_attr_index
reply_valid_example =
    reply_valid toy none accept (sent accept) (received accept) (wire accept) (115 ∷ [])
      (omega arith) tt refl refl accept-sent decode-encode_packet_example

-- With the checksum, the CoA-ACK that Encode has signed fails the check of its own Authenticator.
ack_refused :
    validate_response_authenticator toy (received ack) (replicate 16 5) (115 ∷ []) (wire ack)
    ≡ some false
unfolding validate_response_authenticator constant_time_equal encode encode_attributes is_response
    compute_response_authenticator compute_message_authenticator toy
    find_message_authenticator_offset
ack_refused = refl

-- A digest under which all messages collide.
unfoldable pub flat : Crypto
flat = record {
  md5 = λ m. replicate 16 7;
  hmac_md5 = λ k m. replicate 16 7;
  md5_length = λ m. refl;
  md5_bytes = λ m. All-replicate IsByte 16 7 (omega arith);
  hmac_length = λ k m. refl;
  hmac_bytes = λ k m. All-replicate IsByte 16 7 (omega arith);
}

abbrev flat_ack : Packet
flat_ack = record {
  code = 44;
  identifier = 9;
  authenticator = replicate 16 7;
  attributes = attr 80 (replicate 16 7) ∷ [];
  request_authenticator = replicate 16 5;
  secret = 115 ∷ [];
}

abbrev flat_read : Packet
flat_read = record flat_ack { request_authenticator = zero_auth }

abbrev flat_wire : List ℕ
flat_wire = 44 ∷ 9 ∷ 0 ∷ 38 ∷ (replicate 16 7 ++ (80 ∷ 18 ∷ replicate 16 7))

flat_sent : encode flat none ack ≡ (flat_ack, ok flat_wire)
unfolding encode encode_attributes is_response compute_response_authenticator
    compute_message_authenticator flat find_message_authenticator_offset
flat_sent = refl

flat_decoded : decode flat_wire (115 ∷ []) ≡ ok flat_read
unfolding decode decode_attributes
flat_decoded = refl

flat_valid :
    validate_response_authenticator flat flat_read (replicate 16 5) (115 ∷ []) flat_wire ≡ some true
unfolding validate_response_authenticator constant_time_equal is_response
    compute_response_authenticator flat
flat_valid = refl

signed_reply_valid_iff_example :
    (response_message ack ack.attributes ≢ response_message ack flat_ack.attributes)
    × ((validate_response_authenticator flat flat_read ack.request_authenticator ack.secret
            flat_wire
          ≡ some true)
        ↔ (flat.md5 (response_message ack ack.attributes)
            ≡ flat.md5 (response_message ack flat_ack.attributes)))
unfolding is_response
signed_reply_valid_iff_example =
    signed_reply_valid_iff flat none ack flat_ack flat_read flat_wire (115 ∷ []) (omega arith) tt
      refl (λ e. cc) flat_sent flat_decoded

abbrev vsa : VendorAttribute
vsa = record { vendor_id = 14988; vendor_type = 8; value = 49 ∷ 48 ∷ [] }

abbrev vsa_wire : List ℕ
vsa_wire = put_uint32 14988 ++ (8 ∷ 4 ∷ 49 ∷ 48 ∷ [])

decode-encode_vsa_example : (decode_vsa vsa_wire ≡ ok vsa) × (decode_vsas vsa_wire ≡ ok (vsa ∷ []))
unfolding encode_vsa
decode-encode_vsa_example = decode-encode_vsa 14988 8 (49 ∷ 48 ∷ []) vsa_wire (omega arith) refl

abbrev packet_of : Result Packet → Packet
packet_of (ok p) = p
packet_of (err e) = accept

abbrev pap : Result Packet
pap =
    new_access_request_pap toy (some (replicate 16 3)) 1 (115 ∷ []) (97 ∷ []) (112 ∷ [])
      (attr 32 (110 ∷ []) ∷ [])

pap_built : pap ≡ ok (packet_of pap)
unfolding new_access_request_pap encrypt_user_password toy padded_length
pap_built = refl

new_access_request_pap_lem_example :
    (get_string (packet_of pap).attributes 1 ≡ 97 ∷ [])
    × (decrypt_user_password toy
          (get_string (packet_of pap).attributes 2)
          (115 ∷ [])
          (packet_of pap).authenticator
        ≡ ok (strip_nuls (112 ∷ [])))
    × All (λ a. is_credential a.typ ≡ false) (attr 32 (110 ∷ []) ∷ [])
new_access_request_pap_lem_example =
    new_access_request_pap_lem toy (some (replicate 16 3)) 1 (115 ∷ []) (97 ∷ []) (112 ∷ [])
      (attr 32 (110 ∷ []) ∷ []) (packet_of pap) (omega arith, tt) pap_built

abbrev chap : Result Packet
chap =
    new_access_request_chap toy (some (replicate 16 3)) (some (9 ∷ [])) (some (replicate 16 4)) 1
      (115 ∷ []) (97 ∷ []) (112 ∷ []) []

chap_built : chap ≡ ok (packet_of chap)
unfolding new_access_request_chap chap_password toy
chap_built = refl

new_access_request_chap_lem_example :
    (get_string (packet_of chap).attributes 1 ≡ 97 ∷ [])
    × (get_string (packet_of chap).attributes 3
        ≡ get_or (get_string (packet_of chap).attributes 3) 0 0
          ∷ toy.md5 (
              get_or (get_string (packet_of chap).attributes 3) 0 0
              ∷ (112 ∷ [] ++ get_string (packet_of chap).attributes 60)))
new_access_request_chap_lem_example =
    new_access_request_chap_lem toy (some (replicate 16 3)) (some (9 ∷ [])) (some (replicate 16 4))
      1 (115 ∷ []) (97 ∷ []) (112 ∷ []) [] (packet_of chap) chap_built
