-- ===== src/Server/Handler/Counts.antt =====
-- What the counters of the listener count.
use radstorm.Prelude.{
  ℕ, suc, ◌+◌, ◌≡◌, refl, Bool, true, false, Option, none, some, List, [], ◌∷◌, ◌==◌, length,
  length-append, Bool-cases, inl, inr, arith,
}
use radstorm.Radius.Result.{Result, ok, err}
use radstorm.Radius.Code.{coa_request, disconnect_request}
use radstorm.Radius.Auth.{Crypto}
use radstorm.Radius.Packet.{Packet, decode, validate_message_authenticator}
use radstorm.Server.Handler.{
  Kind, coa_kind, disconnect_kind, Listener, submit, kind_event, received_event,
  unsupported_attribute, session_context_not_found, vsa_error, send_nak, respond_nak, send_ack,
  answer, handle, handle_coa, handle_disconnect, handle_decoded, handle_packet, encoded, build_ack,
  build_nak,
}

-- The datagrams that were counted.
abbrev pub counted : Listener → ℕ
counted l = l.dropped + l.acked + l.naked

-- Each ACK counted started one callback, and each ACK or NAK counted was written.
abbrev pub IsBalanced : Listener → Type 0
IsBalanced l = (l.acked ≡ length l.callbacks) × (l.acked + l.naked ≡ length l.written)

-- One datagram more is counted, and the balance is kept.
abbrev pub IsStep : Listener → Listener → Type 0
IsStep l l' = (counted l' ≡ suc (counted l)) × (IsBalanced l → IsBalanced l')

module _ (crypto : Crypto) (lookup : Packet → Option ℕ) (secret : List ℕ) where
  send_nak-IsStep :
      (taken : Bool) (kind : Kind) (cause : ℕ) (r : Result (List ℕ)) (l : Listener)
      → IsStep l (send_nak crypto lookup secret taken kind cause r l)
  unfolding send_nak
  send_nak-IsStep true kind cause (err e) l = (omega arith, λ b. b)
  send_nak-IsStep false kind cause (err e) l = (omega arith, λ b. b)
  send_nak-IsStep false kind cause (ok bytes) l = (omega arith, λ b. b)
  send_nak-IsStep true kind cause (ok bytes) l =
      (omega arith, λ b. (b.0, omega (arith, b.1, length-append l.written (bytes ∷ []))))

  send_ack-IsStep :
      (taken : Bool) (kind : Kind) (id : ℕ) (r : Result (List ℕ)) (l : Listener)
      → IsStep l (send_ack crypto lookup secret taken kind id r l)
  unfolding send_ack
  send_ack-IsStep true kind id (err e) l = (omega arith, λ b. b)
  send_ack-IsStep false kind id (err e) l = (omega arith, λ b. b)
  send_ack-IsStep false kind id (ok bytes) l = (omega arith, λ b. b)
  send_ack-IsStep true kind id (ok bytes) l = (
    omega arith,
    λ b. (
      omega (arith, b.0, length-append l.callbacks ((kind, id) ∷ [])),
      omega (arith, b.1, length-append l.written (bytes ∷ [])),
    ),
  )

  answer-IsStep :
      (taken : Bool) (kind : Kind) (pkt : Packet) (target : Option ℕ) (l : Listener)
      → IsStep l (answer crypto lookup secret taken kind pkt target l)
  unfolding answer respond_nak
  answer-IsStep taken kind pkt none l =
      send_nak-IsStep taken kind session_context_not_found
        (encoded crypto lookup secret (build_nak kind pkt secret session_context_not_found)) l
  answer-IsStep taken kind pkt (some id) l =
      send_ack-IsStep taken kind id (encoded crypto lookup secret (build_ack kind pkt secret)) l

  handle-IsStep :
      (taken : Bool) (kind : Kind) (pkt : Packet) (wire : List ℕ) (l : Listener)
      → IsStep l (handle crypto lookup secret taken kind pkt wire l)
  unfolding handle respond_nak
  handle-IsStep taken kind pkt wire l =
      elim (Bool-cases (validate_message_authenticator crypto pkt wire secret)) [
        | inr e ↦ rw e (omega arith, λ b. b)
        | inl e ↦ rw e (
            let seen = submit (kind_event kind 0 (received_event kind) (length wire) 0) l in
            elim (Bool-cases (vsa_error pkt)) [
              | inl v ↦ rw v (
                  send_nak-IsStep taken kind unsupported_attribute
                    (encoded crypto lookup secret (build_nak kind pkt secret unsupported_attribute))
                    seen)
              | inr v ↦ rw v (answer-IsStep taken kind pkt (lookup pkt) seen)
            ])
      ]

  handle_decoded-IsStep :
      (taken : Bool) (r : Result Packet) (wire : List ℕ) (l : Listener)
      → IsStep l (handle_decoded crypto lookup secret taken r wire l)
  unfolding handle_decoded handle_coa handle_disconnect
  handle_decoded-IsStep taken (err e) wire l = (omega arith, λ b. b)
  handle_decoded-IsStep taken (ok pkt) wire l = elim (Bool-cases (pkt.code == coa_request)) [
    | inl e ↦ rw e (handle-IsStep taken coa_kind pkt wire l)
    | inr e ↦ rw e (elim (Bool-cases (pkt.code == disconnect_request)) [
      | inl d ↦ rw d (handle-IsStep taken disconnect_kind pkt wire l)
      | inr d ↦ rw d (omega arith, λ b. b)
    ])
  ]

  -- handlePacket counts each datagram exactly once, as dropped, acknowledged or refused, and keeps
  -- the balance: a callback for each ACK counted, a datagram written for each ACK or NAK counted.
  pub handle_packet-IsStep :
      (taken : Bool) (wire : List ℕ) (l : Listener)
      → IsStep l (handle_packet crypto lookup secret taken wire l)
  unfolding handle_packet
  handle_packet-IsStep taken wire l = handle_decoded-IsStep taken (decode wire secret) wire l

  -- A datagram that does not decode, or whose Message-Authenticator is not valid under the shared
  -- secret, is counted as dropped: nothing is written and no callback is started.
  pub handle_packet_unauthenticated :
      (taken : Bool) (wire : List ℕ) (l : Listener)
      → ((pkt : Packet)
          → decode wire secret ≡ ok pkt
          → validate_message_authenticator crypto pkt wire secret ≡ false)
      → let l' = handle_packet crypto lookup secret taken wire l in
        (l'.dropped ≡ suc l.dropped) × (l'.written ≡ l.written) × (l'.callbacks ≡ l.callbacks)
  unfolding handle_packet handle_decoded handle_coa handle_disconnect handle
  handle_packet_unauthenticated taken wire l h = go (decode wire secret) refl
    where
      go :
          (r : Result Packet)
          → decode wire secret ≡ r
          → let l' = handle_decoded crypto lookup secret taken r wire l in
            (l'.dropped ≡ suc l.dropped) × (l'.written ≡ l.written) × (l'.callbacks ≡ l.callbacks)
      go (err e) d = (refl, refl, refl)
      go (ok pkt) d = elim (Bool-cases (pkt.code == coa_request)) [
        | inl e ↦ rw (e, h pkt d) (refl, refl, refl)
        | inr e ↦ rw e (elim (Bool-cases (pkt.code == disconnect_request)) [
          | inl c ↦ rw (c, h pkt d) (refl, refl, refl)
          | inr c ↦ rw c (refl, refl, refl)
        ])
      ]
