-- ===== src/Radius/Packet/Reply.antt =====
-- The Response Authenticator of a reply, as Encode computes it and as the receiver checks it.
use radstorm.Prelude.{
  ℕ, suc, ◌+◌, ◌-◌, ◌*◌, ◌/◌, ◌%◌, ◌≤◌, ◌≡◌, ◌≢◌, ◌↔◌, refl, sym, ap, ◌∙◌, true, false, Option,
  none, some, List, ◌∷◌, ◌++◌, arith, ltb, le→ltb_false, length, take, drop, All, length-append,
  take-append, drop-append, take_all,
}
use radstorm.Radius.Result.{ok}
use radstorm.Radius.Bytes.{IsByte, put_uint16}
use radstorm.Radius.Code.{is_response}
use radstorm.Radius.Attribute.{AttributeList, decode_attributes}
use radstorm.Radius.Attribute.Wire.{wire_of, decode_attributes-wire_of}
use radstorm.Radius.Auth.{Crypto, zero_auth, compute_response_authenticator}
use radstorm.Radius.Packet.{
  Packet, ma_attr_index, constant_time_equal, validate_response_authenticator, layout, encode,
  decode, authenticate,
}
use radstorm.Radius.Packet.Sent.{RandomSize, encode-Sent}
use radstorm.Radius.Packet.RoundTrip.{decode-encode_packet}
use radstorm.Radius.Packet.Authentic.{constant_time_equal_iff}

module _ (crypto : Crypto) where
  authenticate_response :
      (random : Option (List ℕ)) (p : Packet) (n : ℕ) (body : List ℕ)
      → is_response p.code ≡ true
      → authenticate crypto random p n body
        ≡ ok (
            compute_response_authenticator crypto p.code p.identifier
              (n % 65536)
              p.request_authenticator
              body
              p.secret)
  unfolding authenticate is_response
  authenticate_response random p n body h = ground arith

  validate_response_layout :
      (q p : Packet) (n : ℕ) (body secret request : List ℕ)
      → length p.authenticator ≡ 16
      → n ≡ 20 + length body
      → n ≤ 4096
      → is_response q.code ≡ true
      → validate_response_authenticator crypto q request secret (layout p n body)
        ≡ some (
            constant_time_equal q.authenticator
              (compute_response_authenticator crypto q.code q.identifier n request body secret))
  unfolding validate_response_authenticator layout
  validate_response_layout q p n body secret request ha hn small resp =
      let all = p.authenticator ++ body in
      let size : length all ≡ n - 4 = omega (arith, length-append p.authenticator body) in
      let declared : n % 65536 / 256 % 256 * 256 + n % 65536 % 256 ≡ n = omega arith in
      let enough : ltb (suc (suc (suc (suc (length all))))) 20 ≡ false =
        le→ltb_false _ 20 (omega arith) in
      let large : ltb n 20 ≡ false = le→ltb_false n 20 (omega arith) in
      let inside : ltb (suc (suc (suc (suc (length all))))) n ≡ false =
        le→ltb_false _ n (omega arith) in
      let tail : drop 16 all ≡ body = drop-append 16 p.authenticator body ha in
      let rest : take (n - 20) body ≡ body = take_all (n - 20) body (omega arith) in
      rw (resp, enough, declared, large, inside, tail, rest)

  response_bytes :
      (code identifier n : ℕ) (request body secret : List ℕ)
      → All IsByte (compute_response_authenticator crypto code identifier n request body secret)
  unfolding compute_response_authenticator
  response_bytes code identifier n request body secret = crypto.md5_bytes _

  -- The check of a reply that was decoded from the bytes sent compares the digest over the
  -- attribute section as Encode first wrote it with the digest over the section on the wire.
  pub reply_valid_iff :
      (random : Option (List ℕ)) (p p' q : Packet) (w s : List ℕ)
      → length p.authenticator ≡ 16
      → RandomSize random
      → is_response p.code ≡ true
      → encode crypto random p ≡ (p', ok w)
      → decode w s ≡ ok q
      → let digest = λ (l : AttributeList).
        compute_response_authenticator crypto p.code p.identifier
          (20 + length (wire_of p.attributes))
          p.request_authenticator
          (wire_of l)
          p.secret in
        (validate_response_authenticator crypto q p.request_authenticator p.secret w ≡ some true)
        ↔ (digest p.attributes ≡ digest p'.attributes)
  reply_valid_iff random p p' q w s ha hr resp h d =
      let st = encode-Sent crypto random p p' w ha hr h in
      let n = 20 + length (wire_of p.attributes) in
      let seen : Packet = record p {
        authenticator = p'.authenticator;
        attributes = p'.attributes;
        request_authenticator = zero_auth;
        secret = s;
      } in
      let read : q ≡ seen = cc (d, decode-encode_packet crypto random p p' w s ha hr h) in
      let wire : w ≡ layout p' n (wire_of p'.attributes) = rw st.same_size at st.bytes in
      let sent_digest : List ℕ =
        compute_response_authenticator crypto p.code p.identifier n p.request_authenticator
          (wire_of p'.attributes) p.secret in
      let chosen : List ℕ =
        compute_response_authenticator crypto p.code p.identifier n p.request_authenticator
          (wire_of p.attributes) p.secret in
      let whole : n % 65536 ≡ n = omega (arith, st.small, st.same_size) in
      let own : p'.authenticator ≡ chosen = cc (
        st.authenticated,
        rw whole at (authenticate_response random p n (wire_of p.attributes) resp),
      ) in
      let checked : validate_response_authenticator crypto q p.request_authenticator p.secret w
          ≡ some (constant_time_equal p'.authenticator sent_digest) =
        rw (read, wire)
          (validate_response_layout seen p' n (wire_of p'.attributes) p.secret
            p.request_authenticator st.auth_size (omega (arith, st.same_size))
            (omega (arith, st.small, st.same_size)) resp) in
      let same =
        constant_time_equal_iff chosen sent_digest (response_bytes _ _ n _ _ _)
          (response_bytes _ _ n _ _ _) in
      (λ v. same.0 (cc (checked, v, own)), λ e. checked ∙ ap some (rw own (same.1 e)))

-- A response with an authenticator of sixteen bytes and without a Message-Authenticator that is
-- encoded, given random bytes of the right size, and decoded passes ValidateResponseAuthenticator
-- against the authenticator of the request that it answers.
pub reply_valid :
    (crypto : Crypto) (random : Option (List ℕ)) (p p' q : Packet) (w s : List ℕ)
    → length p.authenticator ≡ 16
    → RandomSize random
    → is_response p.code ≡ true
    → ma_attr_index p.attributes ≡ none
    → encode crypto random p ≡ (p', ok w)
    → decode w s ≡ ok q
    → validate_response_authenticator crypto q p.request_authenticator p.secret w ≡ some true
reply_valid crypto random p p' q w s ha hr resp plain h d =
    let st = encode-Sent crypto random p p' w ha hr h in
    (reply_valid_iff crypto random p p' q w s ha hr resp h d).1 (rw (st.unsigned plain) refl)

wire_of_inj : (l m : AttributeList) → wire_of l ≡ wire_of m → l ≡ m
wire_of_inj l m e =
    cc (decode_attributes-wire_of l, decode_attributes-wire_of m, ap decode_attributes e)

drop_front : (front xs ys : List ℕ) → front ++ xs ≡ front ++ ys → xs ≡ ys
drop_front front xs ys e = cc (
  drop-append (length front) front xs refl,
  drop-append (length front) front ys refl,
  ap (drop (length front)) e,
)

same_front : (xs ys back : List ℕ) → length xs ≡ length ys → xs ++ back ≡ ys ++ back → xs ≡ ys
same_front xs ys back h e = cc (
  take-append (length xs) xs back refl,
  take-append (length xs) ys back (sym h),
  ap (take (length xs)) e,
)

-- The message that the authenticator of a response is the digest of, over a list of attributes:
-- code, identifier, length, the authenticator of the request, the attributes and the secret.
abbrev pub response_message : Packet → AttributeList → List ℕ
response_message p l =
    p.code
    ∷ p.identifier
    ∷ (put_uint16 (20 + length (wire_of p.attributes))
        ++ (p.request_authenticator ++ (wire_of l ++ p.secret)))

-- If Encode, given random bytes of the right size, changes the attributes of a response with an
-- authenticator of sixteen bytes, as it does when it fills in a Message-Authenticator, then the
-- message that it digests and the message on the wire differ, and the decoded response passes
-- ValidateResponseAuthenticator exactly where MD5 has the same digest for these two.
pub signed_reply_valid_iff :
    (crypto : Crypto) (random : Option (List ℕ)) (p p' q : Packet) (w s : List ℕ)
    → length p.authenticator ≡ 16
    → RandomSize random
    → is_response p.code ≡ true
    → p'.attributes ≢ p.attributes
    → encode crypto random p ≡ (p', ok w)
    → decode w s ≡ ok q
    → (response_message p p.attributes ≢ response_message p p'.attributes)
      × ((validate_response_authenticator crypto q p.request_authenticator p.secret w ≡ some true)
          ↔ (crypto.md5 (response_message p p.attributes)
              ≡ crypto.md5 (response_message p p'.attributes)))
unfolding compute_response_authenticator
signed_reply_valid_iff crypto random p p' q w s ha hr resp changed h d =
    let st = encode-Sent crypto random p p' w ha hr h in
    let cut_secret : response_message p p.attributes ≡ response_message p p'.attributes
        → wire_of p.attributes ≡ wire_of p'.attributes =
      λ e.
        same_front (wire_of p.attributes) (wire_of p'.attributes) p.secret (sym st.same_size)
          (drop_front p.request_authenticator _ _ (ap (drop 4) e)) in
    (
      λ e. changed (sym (wire_of_inj p.attributes p'.attributes (cut_secret e))),
      reply_valid_iff crypto random p p' q w s ha hr resp h d,
    )
