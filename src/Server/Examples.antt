-- ===== src/Server/Examples.antt =====
-- The theorems on pkg/server at concrete datagrams, under a digest that is sixteen sevens.
use radstorm.Prelude.{
  ℕ, ◌≡◌, refl, sym, ◌∙◌, true, false, Option, some, List, [], ◌∷◌, ◌++◌, replicate,
}
use radstorm.Radius.Result.{ok, ok_injective}
use radstorm.Radius.Attribute.{get_all, encode_attributes, decode_attributes}
use radstorm.Radius.Code.{is_response}
use radstorm.Radius.Auth.{zero_auth, compute_response_authenticator, compute_message_authenticator}
use radstorm.Radius.Packet.{
  Packet, value_at, overwrite, encode, decode, constant_time_equal,
  find_message_authenticator_offset, ma_attr_index, validate_message_authenticator,
}
use radstorm.Radius.Constructors.{new_coa_ack, new_disconnect_ack}
use radstorm.Radius.Examples.{flat}
use radstorm.Server.Handler.{
  coa_kind, disconnect_kind, Listener, vsa_error, handle_packet, encoded, build_ack,
}
use radstorm.Server.Handler.Counts.{IsStep, handle_packet-IsStep, handle_packet_unauthenticated}
use radstorm.Server.Handler.Replies.{ack_code, encoded-build_ack}

abbrev request : ℕ → ℕ → Packet
request code digest = record {
  code = code;
  identifier = 9;
  authenticator = replicate 16 5;
  attributes = record { typ = 80; value = replicate 16 digest } ∷ [];
  request_authenticator = zero_auth;
  secret = 115 ∷ [];
}

abbrev datagram : ℕ → ℕ → List ℕ
datagram code digest = code ∷ 9 ∷ 0 ∷ 38 ∷ (replicate 16 5 ++ (80 ∷ 18 ∷ replicate 16 digest))

abbrev lookup : Packet → Option ℕ
lookup pkt = some 3

abbrev quiet : Listener
quiet = record { dropped = 0; acked = 0; naked = 0; events = []; written = []; callbacks = [] }

after : List ℕ → Listener
after wire = handle_packet flat lookup (115 ∷ []) true wire quiet

handle_packet-IsStep_example : IsStep quiet (after (datagram 43 7))
unfolding after
handle_packet-IsStep_example =
    handle_packet-IsStep flat lookup (115 ∷ []) true (datagram 43 7) quiet

coa_acked :
    ((after (datagram 43 7)).acked ≡ 1) × ((after (datagram 43 7)).callbacks ≡ (coa_kind, 3) ∷ [])
unfolding after handle_packet decode decode_attributes validate_message_authenticator ma_attr_index
    value_at overwrite find_message_authenticator_offset constant_time_equal
    compute_message_authenticator flat get_all vsa_error new_coa_ack new_disconnect_ack build_ack
    encode encode_attributes is_response compute_response_authenticator
coa_acked = (refl, refl)

disconnect_acked : (after (datagram 40 7)).callbacks ≡ (disconnect_kind, 3) ∷ []
unfolding after handle_packet decode decode_attributes validate_message_authenticator ma_attr_index
    value_at overwrite find_message_authenticator_offset constant_time_equal
    compute_message_authenticator flat get_all vsa_error new_coa_ack new_disconnect_ack build_ack
    encode encode_attributes is_response compute_response_authenticator
disconnect_acked = refl

forged : decode (datagram 43 8) (115 ∷ []) ≡ ok (request 43 8)
unfolding decode decode_attributes
forged = refl

forged_refused :
    validate_message_authenticator flat (request 43 8) (datagram 43 8) (115 ∷ []) ≡ false
unfolding validate_message_authenticator ma_attr_index value_at overwrite
    find_message_authenticator_offset constant_time_equal compute_message_authenticator flat
forged_refused = refl

handle_packet_unauthenticated_example :
    ((after (datagram 43 8)).dropped ≡ 1)
    × ((after (datagram 43 8)).written ≡ [])
    × ((after (datagram 43 8)).callbacks ≡ [])
unfolding after
handle_packet_unauthenticated_example =
    handle_packet_unauthenticated flat lookup (115 ∷ []) true (datagram 43 8) quiet
      (λ pkt d. rw (ok_injective (sym forged ∙ d)) forged_refused)

abbrev ack_wire : List ℕ
ack_wire = 44 ∷ 9 ∷ 0 ∷ 38 ∷ (replicate 16 7 ++ (80 ∷ 18 ∷ replicate 16 7))

ack_built :
    encoded flat lookup (115 ∷ []) (build_ack coa_kind (request 43 7) (115 ∷ [])) ≡ ok ack_wire
unfolding encoded new_coa_ack build_ack encode encode_attributes is_response
    compute_response_authenticator compute_message_authenticator find_message_authenticator_offset
    flat
ack_built = refl

encoded-build_ack_example :
    (q : Packet) × (decode ack_wire (115 ∷ []) ≡ ok q)
    × (q.code ≡ ack_code coa_kind)
    × (q.identifier ≡ 9)
    × (validate_message_authenticator flat q ack_wire (115 ∷ []) ≡ true)
encoded-build_ack_example =
    encoded-build_ack flat lookup (115 ∷ []) coa_kind (request 43 7) ack_wire ack_built
