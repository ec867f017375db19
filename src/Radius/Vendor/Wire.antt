-- ===== src/Radius/Vendor/Wire.antt =====
-- Vendor-Specific payloads: what is packed is read back, one at a time and many in one attribute.
use radstorm.Prelude.{
  ℕ, zero, suc, ◌+◌, ◌-◌, ◌%◌, ◌^◌, ◌≤◌, ◌<◌, ◌≡◌, refl, sym, ap, ◌∙◌, false, ◌||◌, none, some,
  List, [], ◌∷◌, ◌++◌, map, append-nil, arith, ltb, le→ltb_false, ==_refl, Bool-cases, inl, inr,
  length, take, drop, take_all,
}
use mathlib.Core.List.{map-append}
use radstorm.Radius.Result.{Result, Error, >>=-eq-ok, ok, err, truncated_attribute, invalid_vsa}
use radstorm.Radius.Bytes.{slice, put_uint32, uint32-put_uint32}
use radstorm.Radius.Attribute.{Attribute, AttributeList, decode_loop}
use radstorm.Radius.Attribute.Wire.{wire_of, decode_loop-wire_of}
use radstorm.Radius.Vendor.{
  VendorAttribute, vendor_specific, encode_vsa, decode_vsa, vsa_loop, decode_vsas,
  add_vendor_attribute, get_vendor, first_of_both,
}

-- The sub-attributes of a vendor, framed like attributes.
abbrev pub as_vsa : ℕ → Attribute → VendorAttribute
as_vsa vendor_id attr = record { vendor_id = vendor_id; vendor_type = attr.typ; value = attr.value }

as_error : Error → Error
as_error truncated_attribute = invalid_vsa
as_error e = e

as_result : ℕ → Result AttributeList → Result (List VendorAttribute)
as_result vendor_id (ok l) = ok (map (as_vsa vendor_id) l)
as_result vendor_id (err e) = err (as_error e)

-- The loop of DecodeVSAs is the loop of decodeAttributes.
vsa_loop-decode_loop :
    (fuel vendor_id : ℕ) (bytes : List ℕ) (acc : AttributeList)
    → vsa_loop fuel vendor_id bytes (map (as_vsa vendor_id) acc)
      ≡ as_result vendor_id (decode_loop fuel bytes acc)
unfolding vsa_loop decode_loop as_result as_error
vsa_loop-decode_loop zero vendor_id [] acc = refl
vsa_loop-decode_loop (suc fuel) vendor_id [] acc = refl
vsa_loop-decode_loop zero vendor_id (b ∷ bytes) acc = refl
vsa_loop-decode_loop (suc fuel) vendor_id (vt ∷ []) acc = refl
vsa_loop-decode_loop (suc fuel) vendor_id (vt ∷ vl ∷ bytes) acc =
    let input = vt ∷ vl ∷ bytes in
    let attr : Attribute = record { typ = vt; value = slice 2 vl input } in
    elim (Bool-cases (ltb vl 2 || ltb (length input) vl)) [
      | inl bad ↦ rw bad
      | inr good ↦ rw good (
          ap (λ o. vsa_loop fuel vendor_id (drop vl input) o)
            (sym (map-append (as_vsa vendor_id) acc (attr ∷ [])))
          ∙ vsa_loop-decode_loop fuel vendor_id (drop vl input) (acc ++ attr ∷ []))
    ]

-- DecodeVSAs reads back, in order, every sub-attribute packed behind a 32-bit vendor id, in the
-- format of the attribute section.
pub decode_vsas-packed :
    (vendor_id : ℕ) (l : AttributeList)
    → vendor_id < 2 ^ 32
    → decode_vsas (put_uint32 vendor_id ++ wire_of l) ≡ ok (map (as_vsa vendor_id) l)
unfolding decode_vsas as_result
decode_vsas-packed vendor_id l h =
    let fuel = length (put_uint32 vendor_id ++ wire_of l) in
    rw
      (
        le→ltb_false (suc (suc (suc (suc (length (wire_of l)))))) 4 (omega arith),
        uint32-put_uint32 vendor_id h,
      )
      (vsa_loop-decode_loop fuel vendor_id (wire_of l) []
        ∙ ap (as_result vendor_id) (decode_loop-wire_of fuel l [] (omega arith)))

encode_vsa-wire_of :
    (vendor_id vendor_type : ℕ) (value encoded : List ℕ)
    → encode_vsa vendor_id vendor_type value ≡ ok encoded
    → (length value ≤ 247)
      × (encoded
          ≡ put_uint32 vendor_id ++ wire_of (record { typ = vendor_type; value = value } ∷ []))
unfolding encode_vsa
encode_vsa-wire_of vendor_id vendor_type value encoded h =
    elim (Bool-cases (ltb 247 (length value))) [
      | inl long ↦ cc (rw long at h)
      | inr short ↦
          let fits : length value ≤ 247 = ground arith in
          let size : (2 + length value) % 256 ≡ suc (suc (length value)) = omega arith in
          (fits, cc (rw (short, size) at h, append-nil value))
    ]

decode_one :
    (vendor_id vendor_type : ℕ) (value encoded : List ℕ)
    → vendor_id < 2 ^ 32
    → length value ≤ 247
    → encoded ≡ put_uint32 vendor_id ++ wire_of (record { typ = vendor_type; value = value } ∷ [])
    → decode_vsa encoded
      ≡ ok (record { vendor_id = vendor_id; vendor_type = vendor_type; value = value })
unfolding decode_vsa
decode_one vendor_id vendor_type value encoded hv short e =
    let n = length value in
    let long : ltb (suc (suc (suc (suc (suc (suc n)))))) 6 ≡ false =
      le→ltb_false _ 6 (omega arith) in
    let few : ltb (suc (suc n)) 2 ≡ false = le→ltb_false _ 2 (omega arith) in
    let room : ltb (suc (suc (suc (suc (suc (suc n)))))) (4 + suc (suc n)) ≡ false =
      le→ltb_false _ _ (omega arith) in
    let body : take (4 + suc (suc n) - 6) value ≡ value = take_all _ value (omega arith) in
    rw (e, append-nil value, long, few, room, uint32-put_uint32 vendor_id hv, body)

-- DecodeVSA and DecodeVSAs both read back the one VSA that EncodeVSA wrote for a 32-bit vendor id.
pub decode-encode_vsa :
    (vendor_id vendor_type : ℕ) (value encoded : List ℕ)
    → vendor_id < 2 ^ 32
    → encode_vsa vendor_id vendor_type value ≡ ok encoded
    → let v : VendorAttribute = record {
      vendor_id = vendor_id;
      vendor_type = vendor_type;
      value = value;
    } in
      (decode_vsa encoded ≡ ok v) × (decode_vsas encoded ≡ ok (v ∷ []))
decode-encode_vsa vendor_id vendor_type value encoded hv h =
    let (short, e) = encode_vsa-wire_of vendor_id vendor_type value encoded h in
    (
      decode_one vendor_id vendor_type value encoded hv short e,
      rw e (decode_vsas-packed vendor_id (record { typ = vendor_type; value = value } ∷ []) hv),
    )

find-append :
    (l m : AttributeList) (vendor_id vendor_type : ℕ)
    → get_vendor (l ++ m) vendor_id vendor_type
      ≡ first_of_both (get_vendor l vendor_id vendor_type) (get_vendor m vendor_id vendor_type)
unfolding get_vendor
find-append [] m vendor_id vendor_type = refl
find-append (attr ∷ rest) m vendor_id vendor_type =
    ground (arith, find-append rest m vendor_id vendor_type)

-- AddVendorAttribute and then GetVendor return the value, for a 32-bit vendor id of which the list
-- had no VSA of the type.
pub get_vendor-add_vendor_attribute :
    (l l' : AttributeList) (vendor_id vendor_type : ℕ) (value : List ℕ)
    → vendor_id < 2 ^ 32
    → get_vendor l vendor_id vendor_type ≡ none
    → add_vendor_attribute l vendor_id vendor_type value ≡ ok l'
    → get_vendor l' vendor_id vendor_type
      ≡ some (record { vendor_id = vendor_id; vendor_type = vendor_type; value = value })
unfolding add_vendor_attribute
get_vendor-add_vendor_attribute l l' vendor_id vendor_type value hv fresh h =
    let (encoded, e, a) = >>=-eq-ok (encode_vsa vendor_id vendor_type value) _ h in
    let attr : Attribute = record { typ = vendor_specific; value = encoded } in
    let last : get_vendor (attr ∷ []) vendor_id vendor_type
        ≡ some (record { vendor_id = vendor_id; vendor_type = vendor_type; value = value }) =
      unfold get_vendor in
      rw (
        (decode-encode_vsa vendor_id vendor_type value encoded hv e).1,
        ==_refl vendor_id,
        ==_refl vendor_type,
      ) in
    let room : length encoded ≤ 253 = omega (
      arith,
      (encode_vsa-wire_of vendor_id vendor_type value encoded e).0,
      ap (length {A = ℕ}) (encode_vsa-wire_of vendor_id vendor_type value encoded e).1,
      ap (length {A = ℕ}) (append-nil value),
    ) in
    let added : l' ≡ l ++ attr ∷ [] = cc (rw (le→ltb_false 253 (length encoded) room) at a) in
    rw (added, find-append, fresh) (unfold get_vendor in last)
