-- ===== src/Server/Handler/Replies.antt =====
-- The replies of the listener as their receiver sees them.
use radstorm.Prelude.{ℕ, ◌≡◌, ◌≢◌, refl, ap, true, Option, none, List, [], ◌∷◌, replicate}
use radstorm.Radius.Result.{ok}
use radstorm.Radius.Code.{coa_ack, disconnect_ack}
use radstorm.Radius.Attribute.{add}
use radstorm.Radius.Auth.{Crypto, zero_auth}
use radstorm.Radius.Packet.{Packet, encode, decode, ma_attr_index, validate_message_authenticator}
use radstorm.Radius.Packet.RoundTrip.{decode-encode_packet}
use radstorm.Radius.Packet.Authentic.{validate_message_authenticator-encode}
use radstorm.Radius.Constructors.{new_coa_ack, new_disconnect_ack, new_dyn_auth_ack, add_extras}
use radstorm.Server.Handler.{Kind, coa_kind, disconnect_kind, encoded, build_ack}

abbrev pub ack_code : Kind → ℕ
ack_code coa_kind = coa_ack
ack_code disconnect_kind = disconnect_ack

abbrev ack_of : Kind → Packet → List ℕ → Packet
ack_of kind pkt secret = record {
  code = ack_code kind;
  identifier = pkt.identifier;
  authenticator = zero_auth;
  attributes = record { typ = 80; value = replicate 16 0 } ∷ [];
  request_authenticator = pkt.authenticator;
  secret = secret;
}

build_ack-ok :
    (kind : Kind) (pkt : Packet) (secret : List ℕ)
    → build_ack kind pkt secret ≡ ok (ack_of kind pkt secret)
unfolding build_ack new_coa_ack new_disconnect_ack new_dyn_auth_ack add_extras add
build_ack-ok coa_kind pkt secret = refl
build_ack-ok disconnect_kind pkt secret = refl

with_second {ℓ κ} : {A : Type ℓ} {B : Type κ} (x : A × B) (b : B) → x.1 ≡ b → x ≡ (x.0, b)
with_second x b e = ap (λ c. (x.0, c)) e

module _ (crypto : Crypto) (lookup : Packet → Option ℕ) (secret : List ℕ) where
  -- Where the ACK to a request encodes, its bytes decode to a packet with the code of the ACK and
  -- the identifier of the request, whose Message-Authenticator is valid under the shared secret.
  pub encoded-build_ack :
      (kind : Kind) (pkt : Packet) (w : List ℕ)
      → encoded crypto lookup secret (build_ack kind pkt secret) ≡ ok w
      → (q : Packet) × (decode w secret ≡ ok q)
        × (q.code ≡ ack_code kind)
        × (q.identifier ≡ pkt.identifier)
        × (validate_message_authenticator crypto q w secret ≡ true)
  unfolding encoded
  encoded-build_ack kind pkt w h =
      let p = ack_of kind pkt secret in
      let built : (encode crypto none p).1 ≡ ok w = rw (build_ack-ok kind pkt secret) at h in
      let sent = with_second (encode crypto none p) (ok w) built in
      let read =
        decode-encode_packet crypto none p (encode crypto none p).0 w secret refl tt sent in
      let signed : ma_attr_index p.attributes ≢ none = λ e. unfold ma_attr_index in cc e in
      (
        _,
        read,
        refl,
        refl,
        validate_message_authenticator-encode crypto none p (encode crypto none p).0 _ w secret refl
            tt signed sent read,
      )
