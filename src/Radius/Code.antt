-- ===== src/Radius/Code.antt =====
-- pkg/radius/code.go: the packet codes. A Code is a byte.
use radstorm.Prelude.{ℕ, Bool, ◌||◌, ◌==◌}

abbrev pub access_request : ℕ
access_request = 1

abbrev pub access_accept : ℕ
access_accept = 2

abbrev pub access_reject : ℕ
access_reject = 3

abbrev pub accounting_request : ℕ
accounting_request = 4

abbrev pub accounting_response : ℕ
accounting_response = 5

abbrev pub access_challenge : ℕ
access_challenge = 11

abbrev pub disconnect_request : ℕ
disconnect_request = 40

abbrev pub disconnect_ack : ℕ
disconnect_ack = 41

abbrev pub disconnect_nak : ℕ
disconnect_nak = 42

abbrev pub coa_request : ℕ
coa_request = 43

abbrev pub coa_ack : ℕ
coa_ack = 44

abbrev pub coa_nak : ℕ
coa_nak = 45

-- Code.IsRequest
unfoldable pub is_request : ℕ → Bool
is_request c =
    c == access_request || c == accounting_request || c == coa_request || c == disconnect_request

-- Code.IsResponse
unfoldable pub is_response : ℕ → Bool
is_response c =
    c == access_accept
    || c == access_reject
    || c == access_challenge
    || c == accounting_response
    || c == coa_ack
    || c == coa_nak
    || c == disconnect_ack
    || c == disconnect_nak
