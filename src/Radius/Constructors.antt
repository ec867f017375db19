-- ===== src/Radius/Constructors.antt =====
-- pkg/radius/constructors.go: the builders of the packets that radstorm sends. What crypto/rand
-- delivers for each call of rand.Read is an argument, `none` for its error.
pub mod Credentials
use radstorm.Prelude.{
  ℕ, Bool, ◌||◌, Option, none, some, List, [], ◌∷◌, ◌==◌, if◌then◌else◌, replicate, get_or,
}
use radstorm.Radius.Result.{
  Result, ok, err, ◌>>=◌, random_unavailable, credential_in_extras, nil_request,
}
use radstorm.Radius.Code.{
  access_request, accounting_request, coa_ack, coa_nak, disconnect_ack, disconnect_nak,
}
use radstorm.Radius.Attribute.{Attribute, AttributeList, add, add_string, add_uint32}
use radstorm.Radius.Auth.{
  Crypto, zero_auth, new_request_authenticator, encrypt_user_password, chap_password,
  message_authenticator_length,
}
use radstorm.Radius.Packet.{Packet, message_authenticator}

abbrev pub user_name : ℕ
user_name = 1

abbrev pub user_password : ℕ
user_password = 2

abbrev pub chap_password_attr : ℕ
chap_password_attr = 3

abbrev pub chap_challenge : ℕ
chap_challenge = 60

abbrev pub acct_status_type : ℕ
acct_status_type = 40

abbrev pub acct_status_start : ℕ
acct_status_start = 1

abbrev pub error_cause : ℕ
error_cause = 101

abbrev pub is_credential : ℕ → Bool
is_credential typ = typ == user_password || typ == chap_password_attr || typ == chap_challenge

-- The loop over the extras of an Access-Request, which refuses credentials.
unfoldable pub add_checked : AttributeList → List Attribute → Result AttributeList
unfolding add
add_checked l [] = ok l
add_checked l (a ∷ extras) =
    if is_credential a.typ
    then err credential_in_extras
    else (add l a.typ a.value >>= λ l'. add_checked l' extras)

-- The loop over the extras of the other packets.
unfoldable pub add_extras : AttributeList → List Attribute → Result AttributeList
unfolding add
add_extras l [] = ok l
add_extras l (a ∷ extras) = add l a.typ a.value >>= λ l'. add_extras l' extras

-- A packet before its attributes.
abbrev pub blank : ℕ → ℕ → List ℕ → List ℕ → List ℕ → AttributeList → Packet
blank code identifier authenticator request_authenticator secret attributes = record {
  code = code;
  identifier = identifier;
  authenticator = authenticator;
  attributes = attributes;
  request_authenticator = request_authenticator;
  secret = secret;
}

read_random : Option (List ℕ) → Result (List ℕ)
read_random none = err random_unavailable
read_random (some bytes) = ok bytes

module _ (crypto : Crypto) where
  -- NewAccessRequestPAP
  unfoldable pub new_access_request_pap :
      Option (List ℕ) → ℕ → List ℕ → List ℕ → List ℕ → List Attribute → Result Packet
  unfolding new_request_authenticator add_string add_checked add
  new_access_request_pap random identifier secret username password extras = do
    auth ← new_request_authenticator random
    named ← add_string [] user_name username
    listed ← add_checked named extras
    cipher ← encrypt_user_password crypto password secret auth
    attributes ← add listed user_password cipher
    ok (blank access_request identifier auth zero_auth secret attributes)

  -- NewAccessRequestCHAP; the three random reads are the authenticator, the CHAP identifier and
  -- the challenge
  unfoldable pub new_access_request_chap :
      Option (List ℕ)
      → Option (List ℕ)
      → Option (List ℕ)
      → ℕ
      → List ℕ
      → List ℕ
      → List ℕ
      → List Attribute
      → Result Packet
  unfolding new_request_authenticator read_random add_string add_checked add
  new_access_request_chap r₁ r₂ r₃ identifier secret username password extras = do
    auth ← new_request_authenticator r₁
    chap_id_bytes ← read_random r₂
    let chap_id = get_or chap_id_bytes 0 0
    challenge ← read_random r₃
    named ← add_string [] user_name username
    listed ← add_checked named extras
    answered ← add listed chap_password_attr (chap_password crypto chap_id password challenge)
    attributes ← add answered chap_challenge challenge
    ok (blank access_request identifier auth zero_auth secret attributes)

-- NewAccountingRequest
unfoldable pub new_accounting_request : ℕ → List ℕ → ℕ → List Attribute → Result Packet
unfolding add_uint32 add_extras
new_accounting_request identifier secret status_type extras = do
  typed ← add_uint32 [] acct_status_type status_type
  attributes ← add_extras typed extras
  ok (blank accounting_request identifier zero_auth zero_auth secret attributes)

-- NewAccountingRequestStart
unfoldable pub new_accounting_request_start : ℕ → List ℕ → List Attribute → Result Packet
unfolding add_uint32 add_extras
new_accounting_request_start identifier secret extras = do
  typed ← add_uint32 [] acct_status_type acct_status_start
  attributes ← add_extras typed extras
  ok (blank accounting_request identifier zero_auth zero_auth secret attributes)

-- newDynAuthAck; `none` is a nil request
unfoldable pub new_dyn_auth_ack : ℕ → Option Packet → List ℕ → List Attribute → Result Packet
unfolding add_extras add
new_dyn_auth_ack code none secret extras = err nil_request
new_dyn_auth_ack code (some req) secret extras = do
  listed ← add_extras [] extras
  attributes ← add listed message_authenticator (replicate message_authenticator_length 0)
  ok (blank code req.identifier zero_auth req.authenticator secret attributes)

-- newDynAuthNak
unfoldable pub new_dyn_auth_nak : ℕ → Option Packet → List ℕ → ℕ → List Attribute → Result Packet
unfolding add_uint32 add_extras add
new_dyn_auth_nak code none secret cause extras = err nil_request
new_dyn_auth_nak code (some req) secret cause extras = do
  caused ← add_uint32 [] error_cause cause
  listed ← add_extras caused extras
  attributes ← add listed message_authenticator (replicate message_authenticator_length 0)
  ok (blank code req.identifier zero_auth req.authenticator secret attributes)

-- NewCoAAck
unfoldable pub new_coa_ack : Option Packet → List ℕ → List Attribute → Result Packet
unfolding new_dyn_auth_ack
new_coa_ack = new_dyn_auth_ack coa_ack

-- NewCoANak
unfoldable pub new_coa_nak : Option Packet → List ℕ → ℕ → List Attribute → Result Packet
unfolding new_dyn_auth_nak
new_coa_nak = new_dyn_auth_nak coa_nak

-- NewDisconnectAck
unfoldable pub new_disconnect_ack : Option Packet → List ℕ → List Attribute → Result Packet
unfolding new_dyn_auth_ack
new_disconnect_ack = new_dyn_auth_ack disconnect_ack

-- NewDisconnectNak
unfoldable pub new_disconnect_nak : Option Packet → List ℕ → ℕ → List Attribute → Result Packet
unfolding new_dyn_auth_nak
new_disconnect_nak = new_dyn_auth_nak disconnect_nak
