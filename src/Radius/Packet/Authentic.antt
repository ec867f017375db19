-- ===== src/Radius/Packet/Authentic.antt =====
-- The two validations of packet.go against what Encode computes.
use radstorm.Prelude.{
  ℕ, ◌+◌, ◌≤◌, ◌≡◌, ◌≢◌, ◌↔◌, refl, sym, ap, ◌∙◌, inl, inr, true, false, Option, none, some, List,
  [], ◌∷◌, ◌++◌, arith, ◌==◌, ==_iff, ==_refl, ltb, le→ltb_false, Bool-cases, length, replicate,
  All,
}
use radstorm.Prelude.Bits.{bit_xor_self, bit_xor_zero, bit_xor_lt, bit_or_zero, bit_or_lt}
use Prim.Native.Nat.{bit_or, bit_xor}
use radstorm.Radius.Result.{ok}
use radstorm.Radius.Bytes.{IsByte}
use radstorm.Radius.Attribute.Wire.{wire_of}
use radstorm.Radius.Auth.{Crypto, zero_auth, compute_message_authenticator}
use radstorm.Radius.Packet.{
  Packet, difference, constant_time_equal, validate_ma_at, validate_message_authenticator,
  overwrite, value_at, layout, ma_attr_index, encode, decode,
}
use radstorm.Radius.Packet.Layout.{
  Cut, Cut-cases, cut-parts, overwrite-layout, length-layout, ma_attr_index-Cut,
}
use native.Mathlib.Decide.{ℕ_discrete}
use radstorm.Radius.Packet.RoundTrip.{decode-encode_packet}
use radstorm.Radius.Packet.Encoding.{encode-Stamped, sign_bad_length, value_at-Cut}
use radstorm.Radius.Packet.Sent.{
  authenticate_size, carry, RandomSize, with_ma, mac_of, length-mac_of, length-wire_of-cut,
  sign-layout,
}

module _ where
  difference_self : (xs : List ℕ) → All IsByte xs → difference 0 xs xs ≡ 0
  unfolding difference
  difference_self [] h = refl
  difference_self (x ∷ xs) h = rw (bit_xor_self x h.0) (difference_self xs h.1)

  difference_zero :
      (v : ℕ) (xs ys : List ℕ)
      → IsByte v
      → All IsByte xs
      → All IsByte ys
      → length xs ≡ length ys
      → difference v xs ys ≡ 0
      → (v ≡ 0) × (xs ≡ ys)
  unfolding difference
  difference_zero v [] [] hv hx hy same h = (h, refl)
  difference_zero v [] (y ∷ ys) hv hx hy same h = absurd (omega arith)
  difference_zero v (x ∷ xs) [] hv hx hy same h = absurd (omega arith)
  difference_zero v (x ∷ xs) (y ∷ ys) hv hx hy same h =
      let lt = bit_xor_lt x y hx.0 hy.0 in
      let (e, tails) =
        difference_zero (bit_or v (bit_xor x y)) xs ys (bit_or_lt v _ hv lt) hx.1 hy.1 (omega arith)
          h in
      let (v0, x0) = bit_or_zero v (bit_xor x y) hv lt e in
      (v0, cc (bit_xor_zero x y hx.0 hy.0 x0, tails))

  -- On byte strings constantTimeEqual answers true exactly for equal strings.
  pub constant_time_equal_iff :
      (a b : List ℕ) → All IsByte a → All IsByte b → (constant_time_equal a b ≡ true) ↔ (a ≡ b)
  unfolding constant_time_equal
  constant_time_equal_iff a b ha hb = (forth, back)
    where
      forth : constant_time_equal a b ≡ true → a ≡ b
      forth h = elim (Bool-cases (length a == length b)) [
        | inl same ↦
            (difference_zero 0 a b (omega arith) ha hb ((==_iff _ _).0 same)
              ((==_iff _ 0).0 (rw same at h))).1
        | inr other ↦ cc (rw other at h)
      ]

      back : a ≡ b → constant_time_equal a b ≡ true
      back e = rw (← e) (rw (==_refl (length a), difference_self a ha))

pub constant_time_equal_self : (a : List ℕ) → All IsByte a → constant_time_equal a a ≡ true
constant_time_equal_self a h = (constant_time_equal_iff a a h h).1 refl

module _ (crypto : Crypto) where
  mac_bytes : (p : Packet) (c : Cut p.attributes 0 20) (n : ℕ) → All IsByte (mac_of crypto p c n)
  unfolding compute_message_authenticator
  mac_bytes p c n = crypto.hmac_bytes _ _

  validate_ma-Cut :
      (p : Packet) (w secret : List ℕ) (c : Cut p.attributes 0 20)
      → length c.ma.value ≡ 16
      → 20 + (length (wire_of c.before) + 2) + 16 ≤ length w
      → validate_message_authenticator crypto p w secret
        ≡ constant_time_equal c.ma.value (
            compute_message_authenticator crypto
              (overwrite w (20 + (length (wire_of c.before) + 2)) (replicate 16 0))
              secret)
  unfolding validate_message_authenticator
  validate_ma-Cut p w secret c size room =
      let index = ma_attr_index-Cut p.attributes 20 c in
      let found : value_at p.attributes (some (0 + length c.before)) ≡ c.ma.value =
        ap (value_at p.attributes) (sym index) ∙ value_at-Cut p.attributes 20 c in
      let fits : ltb (length w) (20 + (length (wire_of c.before) + 2) + 16) ≡ false =
        le→ltb_false _ _ room in
      let sixteen : (length c.ma.value == 16) ≡ true = (==_iff _ 16).1 size in
      rw (
        index, validate_message_authenticator, found, sixteen, c.offset, validate_ma_at, fits,
        index, found,
      )

  -- The packet that Encode laid out passes the check of its Message-Authenticator.
  validate_ma_layout :
      (q p : Packet) (c : Cut p.attributes 0 20) (n : ℕ)
      → length p.authenticator ≡ 16
      → let sent = with_ma p c (mac_of crypto p c n) in
        validate_message_authenticator crypto
          (record q { attributes = sent.attributes })
          (layout p n (wire_of sent.attributes))
          p.secret
        ≡ true
  validate_ma_layout q p c n ha =
      let mac = mac_of crypto p c n in
      let zeros : List ℕ = replicate 16 0 in
      let ma = record c.ma { value = mac } in
      let (offset, index) = cut-parts c.before c.after ma 0 20 c.is_ma c.clear in
      let placed : Cut (c.before ++ ma ∷ c.after) 0 20 = record {
        before = c.before;
        ma = ma;
        after = c.after;
        is_ma = c.is_ma;
        clear = c.clear;
        whole = refl;
        offset = offset;
        index = index;
      } in
      let w = layout p n (wire_of (c.before ++ ma ∷ c.after)) in
      let size : 20 + (length (wire_of c.before) + 2) + 16 ≤ length w = omega (
        arith,
        ha,
        length-layout p n (wire_of (c.before ++ ma ∷ c.after)),
        length-wire_of-cut c.before c.after ma,
        length-mac_of crypto p c n,
      ) in
      let cleared : overwrite w (20 + (length (wire_of c.before) + 2)) zeros
          ≡ layout p n (wire_of (with_ma p c zeros).attributes) =
        overwrite-layout p n c.before c.after ma zeros ha (length-mac_of crypto p c n) in
      validate_ma-Cut (record q { attributes = c.before ++ ma ∷ c.after }) w p.secret placed
        (length-mac_of crypto p c n) size
      ∙ rw cleared (constant_time_equal_self mac (mac_bytes p c n))

-- A packet with an authenticator of sixteen bytes and a Message-Authenticator that Encode accepts,
-- given random bytes of the right size, passes ValidateMessageAuthenticator when it is decoded
-- from the bytes sent and checked under the secret of the sender.
pub validate_message_authenticator-encode :
    (crypto : Crypto) (random : Option (List ℕ)) (p p' q : Packet) (w s : List ℕ)
    → length p.authenticator ≡ 16
    → RandomSize random
    → ma_attr_index p.attributes ≢ none
    → encode crypto random p ≡ (p', ok w)
    → decode w s ≡ ok q
    → validate_message_authenticator crypto q w p.secret ≡ true
validate_message_authenticator-encode crypto random p p' q w s ha hr has h d =
    let st = encode-Stamped crypto random p p' w h in
    let p₁ = record p { authenticator = st.chosen } in
    let n = 20 + length (wire_of p.attributes) in
    let size : length st.chosen ≡ 16 =
      authenticate_size crypto random p n _ st.chosen ha hr st.authenticated in
    let seen : Packet → Packet = λ x. record p {
      authenticator = x.authenticator;
      attributes = x.attributes;
      request_authenticator = zero_auth;
      secret = s;
    } in
    let read : q ≡ seen p' = cc (d, decode-encode_packet crypto random p p' w s ha hr h) in
    elim (Cut-cases p.attributes 0 20) [
      | inl absent ↦ absurd (has (unfold ma_attr_index in absent.1))
      | inr c ↦ elim (ℕ_discrete (length c.ma.value) 16) [
        | no bad ↦
            cc (sign_bad_length crypto p₁ (layout p₁ n (wire_of p.attributes)) c bad, st.signed)
        | yes good ↦
            let out = sym (sign-layout crypto p₁ c n size good) ∙ st.signed in
            rw read (
              carry (λ x v. validate_message_authenticator crypto (seen x) v p.secret ≡ true) out
                (validate_ma_layout crypto (seen p₁) p₁ c n size))
      ]
    ]
