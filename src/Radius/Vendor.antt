-- ===== src/Radius/Vendor.antt =====
-- pkg/radius/vendor.go: Vendor-Specific attributes.
pub mod Wire
use radstorm.Prelude.{
  ℕ, zero, suc, ◌+◌, ◌%◌, Bool, ◌&&◌, ◌||◌, Option, none, some, List, [], ◌∷◌, ◌++◌, ltb, ◌==◌,
  if◌then◌else◌, length, take, drop, get_or,
}
use radstorm.Radius.Result.{Result, ok, err, ◌>>=◌, vsa_too_long, invalid_vsa, out_of_fuel}
use radstorm.Radius.Bytes.{slice, put_uint32, uint32}
use radstorm.Radius.Attribute.{Attribute, AttributeList, add}

abbrev pub vendor_specific : ℕ
vendor_specific = 26

abbrev pub max_vsa_value : ℕ
max_vsa_value = 247

pub record VendorAttribute : Type 0 where
  pub vendor_id : ℕ  -- uint32
  pub vendor_type : ℕ  -- uint8
  pub value : List ℕ

-- EncodeVSA
unfoldable pub encode_vsa : ℕ → ℕ → List ℕ → Result (List ℕ)
encode_vsa vendor_id vendor_type value =
    if ltb max_vsa_value (length value)
    then err vsa_too_long
    else ok (put_uint32 vendor_id ++ (vendor_type ∷ (2 + length value) % 256 ∷ value))

-- DecodeVSA
unfoldable pub decode_vsa : List ℕ → Result VendorAttribute
decode_vsa value =
    if ltb (length value) 6
    then err invalid_vsa
    else let vendor_length = get_or value 5 0 in
      if ltb vendor_length 2 || ltb (length value) (4 + vendor_length)
      then err invalid_vsa
      else ok (record {
        vendor_id = uint32 (slice 0 4 value);
        vendor_type = get_or value 4 0;
        value = slice 6 (4 + vendor_length) value;
      })

-- The loop of DecodeVSAs on fuel, with the VSAs read so far.
unfoldable pub vsa_loop : ℕ → ℕ → List ℕ → List VendorAttribute → Result (List VendorAttribute)
vsa_loop fuel vendor_id [] out = ok out
vsa_loop zero vendor_id (b ∷ rest) out = err out_of_fuel
vsa_loop (suc fuel) vendor_id (vt ∷ []) out = err invalid_vsa
vsa_loop (suc fuel) vendor_id (vt ∷ vl ∷ bytes) out =
    let rest = vt ∷ vl ∷ bytes in
    let next =
      vsa_loop fuel vendor_id (drop vl rest)
        (out ++ record { vendor_id = vendor_id; vendor_type = vt; value = slice 2 vl rest } ∷ []) in
    if ltb vl 2 || ltb (length rest) vl then err invalid_vsa else next

-- DecodeVSAs. Each round takes two bytes at least, so a round for each byte is enough.
unfoldable pub decode_vsas : List ℕ → Result (List VendorAttribute)
unfolding vsa_loop
decode_vsas value =
    if ltb (length value) 4
    then err invalid_vsa
    else vsa_loop (length value) (uint32 (slice 0 4 value)) (drop 4 value) []

-- AttributeList.AddVendorAttribute
unfoldable pub add_vendor_attribute : AttributeList → ℕ → ℕ → List ℕ → Result AttributeList
unfolding encode_vsa add
add_vendor_attribute a vendor_id vendor_type value = do
  encoded ← encode_vsa vendor_id vendor_type value
  add a vendor_specific encoded

-- The inner loop of GetVendor over the VSAs of one attribute.
find_vsa : ℕ → ℕ → List VendorAttribute → Option VendorAttribute
find_vsa vendor_id vendor_type [] = none
find_vsa vendor_id vendor_type (v ∷ vs) =
    if v.vendor_id == vendor_id && v.vendor_type == vendor_type
    then some v
    else find_vsa vendor_id vendor_type vs

-- What one attribute contributes: nothing if it is of another type or malformed.
found_in : ℕ → ℕ → Result (List VendorAttribute) → Option VendorAttribute
found_in vendor_id vendor_type (err e) = none
found_in vendor_id vendor_type (ok vs) = find_vsa vendor_id vendor_type vs

first_of_both : Option VendorAttribute → Option VendorAttribute → Option VendorAttribute
first_of_both none b = b
first_of_both (some a) b = some a

-- AttributeList.GetVendor
unfoldable pub get_vendor : AttributeList → ℕ → ℕ → Option VendorAttribute
unfolding find_vsa found_in first_of_both
get_vendor [] vendor_id vendor_type = none
get_vendor (attr ∷ rest) vendor_id vendor_type =
    let next = get_vendor rest vendor_id vendor_type in
    if attr.typ == vendor_specific
    then first_of_both (found_in vendor_id vendor_type (decode_vsas attr.value)) next
    else next

keep_vendor : ℕ → List VendorAttribute → List VendorAttribute
keep_vendor vendor_id [] = []
keep_vendor vendor_id (v ∷ vs) =
    let out = keep_vendor vendor_id vs in if v.vendor_id == vendor_id then v ∷ out else out

all_in : ℕ → Result (List VendorAttribute) → List VendorAttribute
all_in vendor_id (err e) = []
all_in vendor_id (ok vs) = keep_vendor vendor_id vs

-- AttributeList.GetAllVendor
unfoldable pub get_all_vendor : AttributeList → ℕ → List VendorAttribute
unfolding keep_vendor all_in
get_all_vendor [] vendor_id = []
get_all_vendor (attr ∷ rest) vendor_id =
    let out = get_all_vendor rest vendor_id in
    if attr.typ == vendor_specific then all_in vendor_id (decode_vsas attr.value) ++ out else out
