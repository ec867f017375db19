-- ===== src/Server/Handler.antt =====
-- pkg/server/handler.go: what the listener does with one datagram. The lookup of the subscriber
-- is a parameter, and whether the socket takes the reply is an argument. handleDisconnect mirrors
-- handleCoA with its own codes and event types, so that both are one function of the kind. The
-- tags of the events and the texts of the errors are not modelled.
pub mod Counts
pub mod Replies
use radstorm.Prelude.{
  ℕ, suc, Bool, true, false, not, Option, none, some, List, [], ◌∷◌, ◌++◌, ◌==◌, if◌then◌else◌,
  length,
}
use radstorm.Radius.Result.{Result, ok, err, ◌>>=◌}
use radstorm.Radius.Code.{coa_request, disconnect_request}
use radstorm.Radius.Attribute.{Attribute, get_all}
use radstorm.Radius.Auth.{Crypto}
use radstorm.Radius.Packet.{Packet, encode, decode, validate_message_authenticator}
use radstorm.Radius.Vendor.{VendorAttribute, vendor_specific, decode_vsas}
use radstorm.Radius.Constructors.{new_coa_ack, new_coa_nak, new_disconnect_ack, new_disconnect_nak}

pub data Kind : Type 0 where
  coa_kind : Kind
  disconnect_kind : Kind

pub data EventType : Type 0 where
  validation_failed : EventType
  internal_error : EventType
  dropped_event : EventType  -- coa_dropped, for both kinds
  received_event : Kind → EventType
  acked_event : Kind → EventType
  naked_event : Kind → EventType

-- An event; its category is the one of the kind, `none` for an error.
pub record Event : Type 0 where
  pub sub_id : ℕ
  pub category : Option Kind
  pub typ : EventType
  pub bytes : ℕ
  pub error_cause : ℕ

-- The Listener: its counters, the events submitted, the datagrams written and the callbacks
-- started with the subscriber's id.
pub record Listener : Type 0 where
  pub dropped : ℕ
  pub acked : ℕ
  pub naked : ℕ
  pub events : List Event
  pub written : List (List ℕ)
  pub callbacks : List (Kind × ℕ)

abbrev pub unsupported_attribute : ℕ
unsupported_attribute = 401

abbrev pub session_context_not_found : ℕ
session_context_not_found = 503

abbrev pub submit : Event → Listener → Listener
submit e l = record l { events = l.events ++ e ∷ [] }

abbrev pub error_event : ℕ → EventType → ℕ → Event
error_event sub_id typ cause = record {
  sub_id = sub_id;
  category = none;
  typ = typ;
  bytes = 0;
  error_cause = cause;
}

abbrev pub kind_event : Kind → ℕ → EventType → ℕ → ℕ → Event
kind_event kind sub_id typ bytes cause = record {
  sub_id = sub_id;
  category = some kind;
  typ = typ;
  bytes = bytes;
  error_cause = cause;
}

-- Submit an event and count the datagram as dropped.
abbrev pub drop_with : Event → Listener → Listener
drop_with e l = record l { dropped = suc l.dropped; events = l.events ++ e ∷ [] }

-- Whether vsaTags returns an error for the Vendor-Specific attributes left.
malformed_vsa : Result (List VendorAttribute) → Bool → Bool
malformed_vsa (err e) rest = true
malformed_vsa (ok vsas) rest = rest

vsa_error_in : List Attribute → Bool
unfolding malformed_vsa
vsa_error_in [] = false
vsa_error_in (attr ∷ rest) = malformed_vsa (decode_vsas attr.value) (vsa_error_in rest)

-- vsaTags: whether it returns an error
unfoldable pub vsa_error : Packet → Bool
unfolding vsa_error_in
vsa_error pkt = vsa_error_in (get_all pkt.attributes vendor_specific)

unfoldable pub build_ack : Kind → Packet → List ℕ → Result Packet
build_ack coa_kind pkt secret = new_coa_ack (some pkt) secret []
build_ack disconnect_kind pkt secret = new_disconnect_ack (some pkt) secret []

unfoldable pub build_nak : Kind → Packet → List ℕ → ℕ → Result Packet
build_nak coa_kind pkt secret cause = new_coa_nak (some pkt) secret cause []
build_nak disconnect_kind pkt secret cause = new_disconnect_nak (some pkt) secret cause []

module _ (crypto : Crypto) (lookup : Packet → Option ℕ) (shared_secret : List ℕ) where
  -- Build and Encode.
  unfoldable pub encoded : Result Packet → Result (List ℕ)
  encoded reply = reply >>= λ p. (encode crypto none p).1

  -- The last part of respondCoANak; `taken` says that the socket takes the reply.
  send_nak : Bool → Kind → ℕ → Result (List ℕ) → Listener → Listener
  send_nak taken kind cause (err e) l = drop_with (error_event 0 internal_error cause) l
  send_nak false kind cause (ok bytes) l = drop_with (error_event 0 internal_error cause) l
  send_nak true kind cause (ok bytes) l = record l {
    naked = suc l.naked;
    events = l.events ++ kind_event kind 0 (naked_event kind) (length bytes) cause ∷ [];
    written = l.written ++ bytes ∷ [];
  }

  -- respondCoANak, respondDisconnectNak
  unfoldable pub respond_nak : Bool → Kind → Packet → ℕ → Listener → Listener
  unfolding send_nak encoded
  respond_nak taken kind pkt cause l =
      send_nak taken kind cause (encoded (build_nak kind pkt shared_secret cause)) l

  -- The last part of handleCoA, for the subscriber found.
  send_ack : Bool → Kind → ℕ → Result (List ℕ) → Listener → Listener
  send_ack taken kind id (err e) l = drop_with (error_event id internal_error 0) l
  send_ack false kind id (ok bytes) l = drop_with (error_event id internal_error 0) l
  send_ack true kind id (ok bytes) l = record l {
    acked = suc l.acked;
    events = l.events ++ kind_event kind id (acked_event kind) (length bytes) 0 ∷ [];
    written = l.written ++ bytes ∷ [];
    callbacks = l.callbacks ++ (kind, id) ∷ [];
  }

  -- handleCoA from the lookup on.
  answer : Bool → Kind → Packet → Option ℕ → Listener → Listener
  unfolding respond_nak send_ack encoded
  answer taken kind pkt none l = respond_nak taken kind pkt session_context_not_found l
  answer taken kind pkt (some id) l =
      send_ack taken kind id (encoded (build_ack kind pkt shared_secret)) l

  -- handleCoA and handleDisconnect
  pub handle : Bool → Kind → Packet → List ℕ → Listener → Listener
  unfolding respond_nak answer
  handle taken kind pkt wire l =
      if validate_message_authenticator crypto pkt wire shared_secret
      then (let seen = submit (kind_event kind 0 (received_event kind) (length wire) 0) l in
          if vsa_error pkt
          then respond_nak taken kind pkt unsupported_attribute seen
          else answer taken kind pkt (lookup pkt) seen)
      else drop_with (kind_event kind 0 dropped_event (length wire) 0) l

  unfoldable pub handle_coa : Bool → Packet → List ℕ → Listener → Listener
  unfolding handle
  handle_coa taken = handle taken coa_kind

  unfoldable pub handle_disconnect : Bool → Packet → List ℕ → Listener → Listener
  unfolding handle
  handle_disconnect taken = handle taken disconnect_kind

  -- handlePacket from the result of Decode on.
  handle_decoded : Bool → Result Packet → List ℕ → Listener → Listener
  unfolding handle_coa handle_disconnect
  handle_decoded taken (err e) wire l = drop_with (error_event 0 validation_failed 0) l
  handle_decoded taken (ok pkt) wire l =
      if pkt.code == coa_request
      then handle_coa taken pkt wire l
      else if pkt.code == disconnect_request
      then handle_disconnect taken pkt wire l
      else drop_with (error_event 0 validation_failed 0) l

  -- handlePacket
  unfoldable pub handle_packet : Bool → List ℕ → Listener → Listener
  unfolding handle_decoded
  handle_packet taken wire l = handle_decoded taken (decode wire shared_secret) wire l
