-- ===== src/Io/Matcher/Check.antt =====
-- ValidateResponseAuthenticator does not panic on a packet that Decode returned.
use radstorm.Prelude.{ℕ, ◌≡◌, ◌≢◌, none, List, arith}
use radstorm.Radius.Result.{ok}
use radstorm.Radius.Auth.{Crypto}
use radstorm.Radius.Packet.{Packet, decode, validate_response_authenticator}

-- ValidateResponseAuthenticator does not panic on the bytes of a packet that Decode has returned,
-- for any request and secret.
pub validate-decode :
    (crypto : Crypto) (w s authenticator secret : List ℕ) (q : Packet)
    → decode w s ≡ ok q
    → validate_response_authenticator crypto q authenticator secret w ≢ none
unfolding decode validate_response_authenticator
validate-decode crypto w s authenticator secret q h = ground arith
