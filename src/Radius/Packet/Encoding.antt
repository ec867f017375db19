-- ===== src/Radius/Packet/Encoding.antt =====
-- The stages of Packet.Encode: what each leaves behind on success.
use radstorm.Prelude.{
  ℕ, ◌+◌, ◌≤◌, ◌≡◌, ◌≢◌, refl, ap, ◌∙◌, inl, inr, true, false, not, ◌&&◌, Option, none, some, List,
  ◌∷◌, ◌++◌, arith, ◌==◌, ==_iff, ltb, Bool-cases, length, replicate, get_elem?, set, All,
}
use native.Mathlib.Nat.{zero-add}
use radstorm.Radius.Result.{Result, ok, err, invalid_message_auth_length}
use radstorm.Radius.Code.{access_request}
use radstorm.Radius.Attribute.{AttributeList, encode_attributes}
use radstorm.Radius.Attribute.Wire.{Fits, wire_of, encode_attributes-Fits, encode_attributes-eq}
use radstorm.Radius.Auth.{Crypto, compute_message_authenticator}
use radstorm.Radius.Packet.{
  Packet, encode, encode_body, lay_out, sign, authenticate, layout, overwrite, value_at,
  write_value, ma_attr_index, find_message_authenticator_offset,
}
use radstorm.Radius.Packet.Layout.{Cut, get_elem?-middle, set-middle}

pub value_at-Cut :
    (l : AttributeList) (off : ℕ) (c : Cut l 0 off) → value_at l (ma_attr_index l) ≡ c.ma.value
unfolding value_at ma_attr_index
value_at-Cut l off c =
    let found : get_elem? l (0 + length c.before) ≡ some c.ma =
      ap (λ t. get_elem? t (0 + length c.before)) c.whole
      ∙ rw zero-add (get_elem?-middle c.before c.ma c.after) in
    rw (c.index, value_at, found)

pub write_value-Cut :
    (l : AttributeList) (off : ℕ) (c : Cut l 0 off) (mac : List ℕ)
    → write_value l (ma_attr_index l) mac ≡ c.before ++ record c.ma { value = mac } ∷ c.after
unfolding write_value ma_attr_index
write_value-Cut l off c mac =
    let found : get_elem? l (0 + length c.before) ≡ some c.ma =
      ap (λ t. get_elem? t (0 + length c.before)) c.whole
      ∙ rw zero-add (get_elem?-middle c.before c.ma c.after) in
    let there : set l (0 + length c.before) (record c.ma { value = mac })
        ≡ c.before ++ record c.ma { value = mac } ∷ c.after =
      ap (λ t. set t (0 + length c.before) (record c.ma { value = mac })) c.whole
      ∙ rw zero-add (set-middle c.before c.ma _ c.after) in
    rw (c.index, write_value, found) there

module _ (crypto : Crypto) where
  -- Encode's outcome on success, with the authenticator that the switch chose.
  pub record Stamped (random : Option (List ℕ)) (p p' : Packet) (w : List ℕ) : Type 0 where
    pub chosen : List ℕ
    pub fits : All Fits p.attributes
    pub small : 20 + length (wire_of p.attributes) ≤ 4096
    pub authenticated :
        authenticate crypto random p (20 + length (wire_of p.attributes)) (wire_of p.attributes)
        ≡ ok chosen
    pub signed :
        sign crypto
          (record p { authenticator = chosen })
          (layout
            (record p { authenticator = chosen })
            (20 + length (wire_of p.attributes))
            (wire_of p.attributes))
          (find_message_authenticator_offset p.attributes 20)
        ≡ (p', ok w)

  Stamped-at :
      (random : Option (List ℕ)) (p p' : Packet) (w : List ℕ)
      → All Fits p.attributes
      → 20 + length (wire_of p.attributes) ≤ 4096
      → (r : Result (List ℕ))
      → authenticate crypto random p (20 + length (wire_of p.attributes)) (wire_of p.attributes) ≡ r
      → lay_out crypto p (20 + length (wire_of p.attributes)) (wire_of p.attributes) r ≡ (p', ok w)
      → Stamped random p p' w
  unfolding lay_out
  Stamped-at random p p' w f s (err e) ha h = cc
  Stamped-at random p p' w f s (ok a) ha h = record {
    chosen = a;
    fits = f;
    small = s;
    authenticated = ha;
    signed = h;
  }

  Stamped-body :
      (random : Option (List ℕ)) (p p' : Packet) (w : List ℕ) (r : Result (List ℕ))
      → encode_attributes p.attributes ≡ r
      → encode_body crypto random p r ≡ (p', ok w)
      → Stamped random p p' w
  unfolding encode_body
  Stamped-body random p p' w (err e) hr h = cc
  Stamped-body random p p' w (ok body) hr h =
      let e = encode_attributes-eq p.attributes hr in
      let f = encode_attributes-Fits p.attributes hr in
      let h' : encode_body crypto random p (ok (wire_of p.attributes)) ≡ (p', ok w) = rw e at h in
      elim (Bool-cases (ltb 4096 (20 + length (wire_of p.attributes)))) [
        | inl long ↦ cc (rw long at h')
        | inr short ↦ Stamped-at random p p' w f (ground arith) _ refl (rw short at h')
      ]

  pub encode-Stamped :
      (random : Option (List ℕ)) (p p' : Packet) (w : List ℕ)
      → encode crypto random p ≡ (p', ok w)
      → Stamped random p p' w
  unfolding encode
  encode-Stamped random p p' w h =
      elim (Bool-cases (length p.secret == 0 && not (p.code == access_request))) [
        | inl bare ↦ cc (rw bare at h)
        | inr keyed ↦ Stamped-body random p p' w _ refl (rw keyed at h)
      ]

  pub sign_absent :
      (p : Packet) (out : List ℕ)
      → find_message_authenticator_offset p.attributes 20 ≡ none
      → sign crypto p out (find_message_authenticator_offset p.attributes 20) ≡ (p, ok out)
  unfolding sign
  sign_absent p out h = rw h

  pub sign-Cut :
      (p : Packet) (out : List ℕ) (c : Cut p.attributes 0 20)
      → length c.ma.value ≡ 16
      → let off = 20 + (length (wire_of c.before) + 2) in
        let zeroed = overwrite out off (replicate 16 0) in
        let mac = compute_message_authenticator crypto zeroed p.secret in
        sign crypto p out (find_message_authenticator_offset p.attributes 20) ≡ (
          record p { attributes = c.before ++ record c.ma { value = mac } ∷ c.after },
          ok (overwrite zeroed off mac),
        )
  unfolding sign
  sign-Cut p out c h =
      let size : (length c.ma.value == 16) ≡ true = (==_iff _ 16).1 h in
      rw (c.offset, value_at-Cut p.attributes 20 c, size, write_value-Cut p.attributes 20 c _)

  pub sign_bad_length :
      (p : Packet) (out : List ℕ) (c : Cut p.attributes 0 20)
      → length c.ma.value ≢ 16
      → sign crypto p out (find_message_authenticator_offset p.attributes 20)
        ≡ (p, err invalid_message_auth_length)
  unfolding sign
  sign_bad_length p out c h =
      let size : (length c.ma.value == 16) ≡ false = ground arith in
      rw (c.offset, value_at-Cut p.attributes 20 c, size)
