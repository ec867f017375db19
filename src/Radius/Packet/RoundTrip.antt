-- ===== src/Radius/Packet/RoundTrip.antt =====
-- Packet.Encode and Decode: what is sent is what is read back.
use radstorm.Prelude.{
  ℕ, suc, ◌+◌, ◌-◌, ◌*◌, ◌/◌, ◌%◌, ◌≤◌, ◌≡◌, refl, false, Option, List, ◌++◌, arith, ltb,
  le→ltb_false, length, take, drop, length-append, take-append, drop-append, take_all,
}
use radstorm.Radius.Result.{ok, ◌>>=◌}
use radstorm.Radius.Attribute.{decode_attributes}
use radstorm.Radius.Attribute.Wire.{wire_of, decode_attributes-wire_of}
use radstorm.Radius.Auth.{Crypto, zero_auth}
use radstorm.Radius.Packet.{Packet, encode, layout, decode}
use radstorm.Radius.Packet.Sent.{RandomSize, encode-Sent}

decode-layout :
    (p : Packet) (n : ℕ) (body secret : List ℕ)
    → length p.authenticator ≡ 16
    → n ≡ 20 + length body
    → n ≤ 4096
    → decode (layout p n body) secret ≡ (
        decode_attributes body >>= λ attrs. ok (record {
          code = p.code;
          identifier = p.identifier;
          authenticator = p.authenticator;
          attributes = attrs;
          request_authenticator = zero_auth;
          secret = secret;
        }))
unfolding decode layout
decode-layout p n body secret ha hn small =
    let all = p.authenticator ++ body in
    let size : length all ≡ n - 4 = omega (arith, length-append p.authenticator body) in
    let declared : n % 65536 / 256 % 256 * 256 + n % 65536 % 256 ≡ n = omega arith in
    let enough : ltb (suc (suc (suc (suc (length all))))) 20 ≡ false =
      le→ltb_false _ 20 (omega arith) in
    let short : ltb 4096 (suc (suc (suc (suc (length all))))) ≡ false =
      le→ltb_false 4096 _ (omega arith) in
    let large : ltb n 20 ≡ false = le→ltb_false n 20 (omega arith) in
    let inside : ltb (suc (suc (suc (suc (length all))))) n ≡ false =
      le→ltb_false _ n (omega arith) in
    let head : take 16 all ≡ p.authenticator = take-append 16 p.authenticator body ha in
    let tail : drop 16 all ≡ body = drop-append 16 p.authenticator body ha in
    let rest : take (n - 20) body ≡ body = take_all (n - 20) body (omega arith) in
    rw (enough, short, declared, large, inside, head, tail, rest)

-- If Encode succeeds on a packet whose authenticator has sixteen bytes, given random bytes of the
-- right size, then Decode of the bytes returns its code and identifier, the authenticator that
-- Encode chose and the attributes, a Message-Authenticator with the value that Encode computed.
pub decode-encode_packet :
    (crypto : Crypto) (random : Option (List ℕ)) (p p' : Packet) (w secret : List ℕ)
    → length p.authenticator ≡ 16
    → RandomSize random
    → encode crypto random p ≡ (p', ok w)
    → decode w secret
      ≡ ok (record {
        code = p.code;
        identifier = p.identifier;
        authenticator = p'.authenticator;
        attributes = p'.attributes;
        request_authenticator = zero_auth;
        secret = secret;
      })
decode-encode_packet crypto random p p' w secret ha hr h =
    let s = encode-Sent crypto random p p' w ha hr h in
    rw
      (
        s.bytes,
        decode-layout p' _ (wire_of p'.attributes) secret s.auth_size refl s.small,
        decode_attributes-wire_of p'.attributes,
      )
      (λ i. ok (record {
        code = s.same_code i;
        identifier = s.same_identifier i;
        authenticator = p'.authenticator;
        attributes = p'.attributes;
        request_authenticator = zero_auth;
        secret = secret;
      }))
