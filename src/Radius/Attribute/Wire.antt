-- ===== src/Radius/Attribute/Wire.antt =====
-- The wire format of the attribute section: decoding inverts encoding, both ways.
use radstorm.Prelude.{
  ℕ, zero, suc, ◌+◌, ◌-◌, ◌%◌, ◌≤◌, ◌<◌, ◌≡◌, ◌≢◌, ◌↔◌, refl, ◌⊎◌, sym, ap, ◌∙◌, false, true, List,
  [], ◌∷◌, ◌++◌, append-nil, append_assoc, arith, ltb, le→ltb_false, lt→ltb, length, take, drop,
  All, length-append, length-drop, take-append, drop-append, take-append-drop, length-take,
  All-drop, inl, inr, Bool-cases,
}
use native.Mathlib.Decide.{dec_le}
use radstorm.Radius.Result.{Result, ok, err, truncated_attribute}
use radstorm.Radius.Bytes.{IsByte}
use radstorm.Radius.Attribute.{
  Attribute, AttributeList, encode_loop, encode_attributes, decode_loop, decode_attributes,
}

-- The value fits its one-byte length field.
abbrev pub Fits : Attribute → Type 0
Fits attr = length attr.value ≤ 253

-- The bytes of a list of attributes, written down directly.
abbrev pub wire_of : AttributeList → List ℕ
wire_of [] = []
wire_of (attr ∷ rest) = attr.typ ∷ suc (suc (length attr.value)) ∷ (attr.value ++ wire_of rest)

encode_loop_step :
    (out : List ℕ) (attr : Attribute) (rest : AttributeList)
    → Fits attr
    → encode_loop out (attr ∷ rest)
      ≡ encode_loop (out ++ (attr.typ ∷ suc (suc (length attr.value)) ∷ attr.value)) rest
unfolding encode_loop
encode_loop_step out attr rest h =
    let e : (2 + length attr.value) % 256 ≡ suc (suc (length attr.value)) = omega arith in
    rw (le→ltb_false 253 (length attr.value) h, e)

encode_loop-wire_of :
    (out : List ℕ) (l : AttributeList) → All Fits l → encode_loop out l ≡ ok (out ++ wire_of l)
encode_loop-wire_of out [] h = unfold encode_loop in rw append-nil
encode_loop-wire_of out (attr ∷ rest) h =
    encode_loop_step out attr rest h.0
    ∙ encode_loop-wire_of _ rest h.1
    ∙ ap ok (append_assoc out _ (wire_of rest))

pub encode_attributes-wire_of :
    (l : AttributeList) → All Fits l → encode_attributes l ≡ ok (wire_of l)
unfolding encode_attributes
encode_attributes-wire_of l h = encode_loop-wire_of [] l h

encode_loop-Fits :
    (out : List ℕ) (l : AttributeList) {w : List ℕ} → encode_loop out l ≡ ok w → All Fits l
unfolding encode_loop
encode_loop-Fits out [] h = tt
encode_loop-Fits out (attr ∷ rest) h = elim (Bool-cases (ltb 253 (length attr.value))) [
  | inl long ↦ cc (rw long at h)
  | inr fits ↦ (
    ground arith,
    encode_loop-Fits (out ++ (attr.typ ∷ (2 + length attr.value) % 256 ∷ attr.value)) rest
        (rw fits at h),
  )
]

pub encode_attributes-Fits :
    (l : AttributeList) {w : List ℕ} → encode_attributes l ≡ ok w → All Fits l
unfolding encode_attributes
encode_attributes-Fits l h = encode_loop-Fits [] l h

-- What the encoder writes, when it does not refuse.
pub encode_attributes-eq :
    (l : AttributeList) {w : List ℕ} → encode_attributes l ≡ ok w → w ≡ wire_of l
encode_attributes-eq l h = let e = encode_attributes-wire_of l (encode_attributes-Fits l h) in cc

-- One round of the decoder, where the claimed length fits the input.
decode_loop_step :
    (fuel typ n : ℕ) (bytes : List ℕ) (acc : AttributeList)
    → n ≤ length bytes
    → decode_loop (suc fuel) (typ ∷ suc (suc n) ∷ bytes) acc
      ≡ decode_loop fuel (drop n bytes) (acc ++ record { typ = typ; value = take n bytes } ∷ [])
unfolding decode_loop
decode_loop_step fuel typ n bytes acc h =
    let few : ltb (suc (suc n)) 2 ≡ false = le→ltb_false _ 2 (omega arith) in
    let fits : ltb (suc (suc (length bytes))) (suc (suc n)) ≡ false =
      le→ltb_false _ _ (omega arith) in
    let body : suc (suc n) - 2 ≡ n = omega arith in rw (few, fits, body)

decode_loop_short :
    (fuel typ n : ℕ) (bytes : List ℕ) (acc : AttributeList)
    → length bytes < n
    → decode_loop (suc fuel) (typ ∷ suc (suc n) ∷ bytes) acc ≡ err truncated_attribute
unfolding decode_loop
decode_loop_short fuel typ n bytes acc h =
    let few : ltb (suc (suc n)) 2 ≡ false = le→ltb_false _ 2 (omega arith) in
    let short : ltb (suc (suc (length bytes))) (suc (suc n)) ≡ true = lt→ltb _ _ (omega arith) in
    rw (few, short)

pub decode_loop-wire_of :
    (fuel : ℕ) (l acc : AttributeList)
    → length (wire_of l) ≤ fuel
    → decode_loop fuel (wire_of l) acc ≡ ok (acc ++ l)
decode_loop-wire_of zero [] acc h = unfold decode_loop in rw append-nil
decode_loop-wire_of (suc fuel) [] acc h = unfold decode_loop in rw append-nil
decode_loop-wire_of zero (attr ∷ rest) acc h = absurd (omega arith)
decode_loop-wire_of (suc fuel) (attr ∷ rest) acc h =
    decode_loop_step fuel attr.typ (length attr.value) (attr.value ++ wire_of rest) acc
      (omega (arith, length-append attr.value (wire_of rest)))
    ∙ (rw
        (take-append _ attr.value (wire_of rest) refl, drop-append _ attr.value (wire_of rest) refl)
        (decode_loop-wire_of fuel rest (acc ++ attr ∷ [])
            (omega (arith, length-append attr.value (wire_of rest)))
          ∙ ap ok (append_assoc acc (attr ∷ []) rest)))

pub decode_attributes-wire_of : (l : AttributeList) → decode_attributes (wire_of l) ≡ ok l
unfolding decode_attributes
decode_attributes-wire_of l = decode_loop-wire_of _ l [] (omega arith)

-- Whatever list encodeAttributes accepts, decodeAttributes reads back from the bytes written.
pub decode-encode :
    (l : AttributeList) (w : List ℕ) → encode_attributes l ≡ ok w → decode_attributes w ≡ ok l
decode-encode l w h = rw (encode_attributes-eq l h) (decode_attributes-wire_of l)

finished : {l : AttributeList} (acc : AttributeList) → ok acc ≡ ok l → l ≡ acc ++ []
finished acc h = cc (append-nil acc)

-- What the decoder accepts is exactly the encoding of what it returns.
decode_loop_exact :
    (fuel : ℕ) (bytes : List ℕ) (acc : AttributeList) {l : AttributeList}
    → All IsByte bytes
    → decode_loop fuel bytes acc ≡ ok l
    → (more : AttributeList) × (l ≡ acc ++ more) × (bytes ≡ wire_of more) × All Fits more
unfolding decode_loop
decode_loop_exact zero [] acc {l} hb h = ([], finished acc h, refl, tt)
decode_loop_exact (suc fuel) [] acc {l} hb h = ([], finished acc h, refl, tt)
decode_loop_exact zero (b ∷ bytes) acc hb h = cc
decode_loop_exact (suc fuel) (typ ∷ []) acc hb h = cc
decode_loop_exact (suc fuel) (typ ∷ zero ∷ bytes) acc hb h = cc
decode_loop_exact (suc fuel) (typ ∷ suc zero ∷ bytes) acc hb h = cc
decode_loop_exact (suc fuel) (typ ∷ suc (suc n) ∷ bytes) acc {l} hb h =
    elim (dec_le n (length bytes)) [
      | no short ↦ cc (decode_loop_short fuel typ n bytes acc (omega arith), h)
      | yes fits ↦
          let attr : Attribute = record { typ = typ; value = take n bytes } in
          let rest : decode_loop fuel (drop n bytes) (acc ++ attr ∷ []) ≡ ok l =
            sym (decode_loop_step fuel typ n bytes acc fits) ∙ h in
          let (more, split, tail, good) =
            decode_loop_exact fuel (drop n bytes) (acc ++ attr ∷ [])
              (All-drop IsByte n bytes hb.1.1) rest in
          let size : length (take n bytes) ≡ n = omega (arith, length-take n bytes) in
          (
            attr ∷ more,
            split ∙ append_assoc acc (attr ∷ []) more,
            rw (size, ← tail, take-append-drop n bytes),
            (omega arith, good),
          )
    ]

decode_attributes_exact :
    (bytes : List ℕ) (l : AttributeList)
    → All IsByte bytes
    → decode_attributes bytes ≡ ok l
    → (bytes ≡ wire_of l) × All Fits l
unfolding decode_attributes
decode_attributes_exact bytes l hb h =
    let (more, split, tail, good) = decode_loop_exact (length bytes) bytes [] hb h in
    (rw split tail, rw split good)

-- Where decodeAttributes accepts a byte string, encodeAttributes writes just that byte string for
-- the list returned.
pub encode-decode :
    (bytes : List ℕ) (l : AttributeList)
    → All IsByte bytes
    → decode_attributes bytes ≡ ok l
    → encode_attributes l ≡ ok bytes
encode-decode bytes l hb h =
    let (e, good) = decode_attributes_exact bytes l hb h in
    encode_attributes-wire_of l good ∙ ap ok (sym e)

abbrev pub Accepts : Result AttributeList → Type 0
Accepts r = ((l : AttributeList) × (r ≡ ok l)) ⊎ (r ≡ err truncated_attribute)

decode_loop_cases :
    (fuel : ℕ) (bytes : List ℕ) (acc : AttributeList)
    → length bytes ≤ fuel
    → Accepts (decode_loop fuel bytes acc)
decode_loop_cases zero [] acc h = inl (acc, unfold decode_loop in refl)
decode_loop_cases (suc fuel) [] acc h = inl (acc, unfold decode_loop in refl)
decode_loop_cases zero (b ∷ bytes) acc h = absurd (omega arith)
decode_loop_cases (suc fuel) (typ ∷ []) acc h = inr (unfold decode_loop in refl)
decode_loop_cases (suc fuel) (typ ∷ zero ∷ bytes) acc h = inr (unfold decode_loop in refl)
decode_loop_cases (suc fuel) (typ ∷ suc zero ∷ bytes) acc h = inr (unfold decode_loop in refl)
decode_loop_cases (suc fuel) (typ ∷ suc (suc n) ∷ bytes) acc h = elim (dec_le n (length bytes)) [
  | no short ↦ inr (decode_loop_short fuel typ n bytes acc (omega arith))
  | yes fits ↦ rw (decode_loop_step fuel typ n bytes acc fits) (
      decode_loop_cases fuel (drop n bytes) (acc ++ record { typ = typ; value = take n bytes } ∷ [])
        (omega (arith, length-drop n bytes)))
]

-- decodeAttributes ends on every input, with a list or with ErrTruncatedAttribute.
pub decode_attributes_cases : (bytes : List ℕ) → Accepts (decode_attributes bytes)
unfolding decode_attributes
decode_attributes_cases bytes = decode_loop_cases (length bytes) bytes [] (omega arith)

-- decodeAttributes answers ErrTruncatedAttribute on exactly the byte strings that encodeAttributes
-- writes for no list at all.
pub decode_attributes_refuses :
    (bytes : List ℕ)
    → All IsByte bytes
    → (decode_attributes bytes ≡ err truncated_attribute)
      ↔ ((l : AttributeList) → encode_attributes l ≢ ok bytes)
decode_attributes_refuses bytes hb = (
  λ e l w. cc (decode-encode l bytes w, e),
  λ none_writes. elim (decode_attributes_cases bytes) [
    | inl (l, e) ↦ absurd (none_writes l (encode-decode bytes l hb e))
    | inr e ↦ e
  ],
)
