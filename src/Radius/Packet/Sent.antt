-- ===== src/Radius/Packet/Sent.antt =====
-- Packet.Encode: the bytes sent are the layout of the packet that it leaves.
use radstorm.Prelude.{
  ℕ, ◌+◌, ◌%◌, Bool, ◌≤◌, ◌≡◌, refl, sym, ap, ◌∙◌, inl, inr, ◌||◌, Option, none, some, List, ◌∷◌,
  ◌++◌, arith, ◌==◌, Bool-cases, length, replicate, length-append,
}
use mathlib.Core.Path.{subst₂}
use native.Mathlib.Decide.{ℕ_discrete}
use radstorm.Radius.Result.{Result, ok}
use radstorm.Radius.Code.{
  is_response, access_request, accounting_request, coa_request, disconnect_request,
}
use radstorm.Radius.Attribute.{Attribute, AttributeList}
use radstorm.Radius.Attribute.Wire.{wire_of}
use radstorm.Radius.Auth.{
  Crypto, new_request_authenticator, compute_message_authenticator, compute_request_authenticator,
  compute_response_authenticator,
}
use radstorm.Radius.Packet.{
  Packet, ma_attr_index, encode, sign, overwrite, is_zero_auth, authenticate, layout,
  find_message_authenticator_offset,
}
use radstorm.Radius.Packet.Layout.{
  Cut, ma_attr_index-Cut, Cut-cases, overwrite-layout, wire_of-append,
}
use radstorm.Radius.Packet.Encoding.{encode-Stamped, sign_absent, sign-Cut, sign_bad_length}

-- crypto/rand fills the sixteen bytes that it is asked for, or reports an error.
abbrev pub RandomSize : Option (List ℕ) → Type 0
RandomSize none = Unit {0}
RandomSize (some r) = length r ≡ 16

-- The packet with another value in its Message-Authenticator.
abbrev pub with_ma : (p : Packet) → Cut p.attributes 0 20 → List ℕ → Packet
with_ma p c v = record p { attributes = c.before ++ record c.ma { value = v } ∷ c.after }

pub length-wire_of-cut :
    (before after : AttributeList) (a : Attribute)
    → length (wire_of (before ++ a ∷ after))
      ≡ length (wire_of before) + (2 + (length a.value + length (wire_of after)))
length-wire_of-cut before after a = omega (
  arith,
  ap (length {A = ℕ}) (wire_of-append before (a ∷ after)),
  length-append (wire_of before) (wire_of (a ∷ after)),
  length-append a.value (wire_of after),
)

pub carry :
    (P : Packet → List ℕ → Type 0) {p q : Packet} {v w : List ℕ}
    → ◌≡◌ {A = Packet × Result (List ℕ)} (p, ok v) (q, ok w)
    → P p v
    → P q w
carry P {p} {q} {v} {w} h x =
    let first : p ≡ q = cc in let second : v ≡ w = cc in subst₂ P first second x

-- The requests whose authenticator Encode computes.
abbrev pub is_computed : ℕ → Bool
is_computed code = code == accounting_request || code == coa_request || code == disconnect_request

module _ (crypto : Crypto) where
  -- What Encode writes into the Message-Authenticator: the keyed digest of the packet with zeros.
  abbrev pub mac_of : (p : Packet) → Cut p.attributes 0 20 → ℕ → List ℕ
  mac_of p c n =
      compute_message_authenticator crypto
        (layout p n (wire_of (with_ma p c (replicate 16 0)).attributes)) p.secret

  pub length-mac_of : (p : Packet) (c : Cut p.attributes 0 20) (n : ℕ) → length (mac_of p c n) ≡ 16
  unfolding compute_message_authenticator
  length-mac_of p c n = crypto.hmac_length _ _

  pub sign-layout :
      (p : Packet) (c : Cut p.attributes 0 20) (n : ℕ)
      → length p.authenticator ≡ 16
      → length c.ma.value ≡ 16
      → sign crypto p
          (layout p n (wire_of p.attributes))
          (find_message_authenticator_offset p.attributes 20)
        ≡ (
          with_ma p c (mac_of p c n),
          ok (layout p n (wire_of (with_ma p c (mac_of p c n)).attributes)),
        )
  sign-layout p c n ha hm =
      let off = 20 + (length (wire_of c.before) + 2) in
      let zeros : List ℕ = replicate 16 0 in
      let mac = mac_of p c n in
      let cleared : overwrite (layout p n (wire_of p.attributes)) off zeros
          ≡ layout p n (wire_of (with_ma p c zeros).attributes) =
        ap (λ l. overwrite (layout p n (wire_of l)) off zeros) c.whole
        ∙ overwrite-layout p n c.before c.after c.ma zeros ha hm in
      let written : overwrite (layout p n (wire_of (with_ma p c zeros).attributes)) off mac
          ≡ layout p n (wire_of (with_ma p c mac).attributes) =
        overwrite-layout p n c.before c.after (record c.ma { value = zeros }) mac ha
          (sym (length-mac_of p c n)) in
      sign-Cut crypto p (layout p n (wire_of p.attributes)) c hm ∙ rw cleared (rw written)

  random_size :
      (random : Option (List ℕ)) (a : List ℕ)
      → RandomSize random
      → new_request_authenticator random ≡ ok a
      → length a ≡ 16
  unfolding new_request_authenticator
  random_size none a hr h = cc
  random_size (some r) a hr h = let e : r ≡ a = cc in rw (← e) hr

  pub authenticate_size :
      (random : Option (List ℕ)) (p : Packet) (n : ℕ) (body a : List ℕ)
      → length p.authenticator ≡ 16
      → RandomSize random
      → authenticate crypto random p n body ≡ ok a
      → length a ≡ 16
  unfolding authenticate compute_request_authenticator compute_response_authenticator
  authenticate_size random p n body a ha hr h = elim (Bool-cases (p.code == access_request)) [
    | inl access ↦ elim (Bool-cases (is_zero_auth p.authenticator)) [
      | inl fresh ↦ random_size random a hr (rw (access, fresh) at h)
      | inr kept ↦ let e : p.authenticator ≡ a = cc (rw (access, kept) at h) in rw (← e) ha
    ]
    | inr other ↦ elim (Bool-cases (is_computed p.code)) [
      | inl request ↦
          let e : compute_request_authenticator crypto p.code p.identifier (n % 65536) body p.secret
              ≡ a =
            cc (rw (other, request) at h) in
          rw (← e) (crypto.md5_length _)
      | inr not_request ↦ elim (Bool-cases (is_response p.code)) [
        | inl response ↦
            let e : compute_response_authenticator crypto p.code p.identifier (n % 65536)
                  p.request_authenticator body p.secret
                ≡ a =
              cc (rw (other, not_request, response) at h) in
            rw (← e) (crypto.md5_length _)
        | inr unknown ↦ cc (rw (other, not_request, unknown) at h)
      ]
    ]
  ]

  -- The packet sent, as a layout of the packet that Encode leaves.
  pub record Sent (random : Option (List ℕ)) (p p' : Packet) (w : List ℕ) : Type 0 where
    pub bytes : w ≡ layout p' (20 + length (wire_of p'.attributes)) (wire_of p'.attributes)
    pub small : 20 + length (wire_of p'.attributes) ≤ 4096
    pub auth_size : length p'.authenticator ≡ 16
    pub same_code : p'.code ≡ p.code
    pub same_identifier : p'.identifier ≡ p.identifier
    pub same_secret : p'.secret ≡ p.secret
    pub same_size : length (wire_of p'.attributes) ≡ length (wire_of p.attributes)
    pub authenticated :
        authenticate crypto random p (20 + length (wire_of p.attributes)) (wire_of p.attributes)
        ≡ ok p'.authenticator
    pub unsigned : ma_attr_index p.attributes ≡ none → p'.attributes ≡ p.attributes

  sent_with_ma :
      (random : Option (List ℕ)) (p : Packet) (c : Cut p.attributes 0 20) (chosen : List ℕ)
      → authenticate crypto random p (20 + length (wire_of p.attributes)) (wire_of p.attributes)
        ≡ ok chosen
      → length chosen ≡ 16
      → length c.ma.value ≡ 16
      → 20 + length (wire_of p.attributes) ≤ 4096
      → let q = record p { authenticator = chosen } in
        let n = 20 + length (wire_of p.attributes) in
        Sent random p
          (with_ma q c (mac_of q c n))
          (layout q n (wire_of (with_ma q c (mac_of q c n)).attributes))
  unfolding layout
  sent_with_ma random p c chosen auth size good small =
      let q = record p { authenticator = chosen } in
      let n = 20 + length (wire_of p.attributes) in
      let mac = mac_of q c n in
      let same : length (wire_of (with_ma q c mac).attributes) ≡ length (wire_of p.attributes) =
        omega (
          arith,
          length-wire_of-cut c.before c.after (record c.ma { value = mac }),
          length-wire_of-cut c.before c.after c.ma,
          ap (λ l. length (wire_of l)) c.whole,
          length-mac_of q c n,
          good,
        ) in
      record {
        bytes = rw same refl;
        small = rw same small;
        auth_size = size;
        same_code = refl;
        same_identifier = refl;
        same_secret = refl;
        same_size = same;
        authenticated = auth;
        unsigned = λ e. cc (ma_attr_index-Cut p.attributes 20 c, e);
      }

  pub encode-Sent :
      (random : Option (List ℕ)) (p p' : Packet) (w : List ℕ)
      → length p.authenticator ≡ 16
      → RandomSize random
      → encode crypto random p ≡ (p', ok w)
      → Sent random p p' w
  encode-Sent random p p' w ha hr h =
      let s = encode-Stamped crypto random p p' w h in
      let q = record p { authenticator = s.chosen } in
      let n = 20 + length (wire_of p.attributes) in
      let size : length s.chosen ≡ 16 =
        authenticate_size random p n _ s.chosen ha hr s.authenticated in
      elim (Cut-cases p.attributes 0 20) [
        | inl absent ↦
            carry (Sent random p) (sym (sign_absent crypto q _ absent.0) ∙ s.signed) (record {
              bytes = refl;
              small = s.small;
              auth_size = size;
              same_code = refl;
              same_identifier = refl;
              same_secret = refl;
              same_size = refl;
              authenticated = s.authenticated;
              unsigned = λ _. refl;
            })
        | inr c ↦ elim (ℕ_discrete (length c.ma.value) 16) [
          | no bad ↦
              cc (sign_bad_length crypto q (layout q n (wire_of p.attributes)) c bad, s.signed)
          | yes good ↦
              carry (Sent random p) (sym (sign-layout q c n size good) ∙ s.signed)
                (sent_with_ma random p c s.chosen s.authenticated size good s.small)
        ]
      ]
