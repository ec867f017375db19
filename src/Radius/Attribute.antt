-- ===== src/Radius/Attribute.antt =====
-- pkg/radius/attribute.go: attributes, the attribute list with its accessors, and the wire
-- format of the attribute section. The theorems are in the modules below.
pub mod Wire
pub mod Access
use radstorm.Prelude.{
  ℕ, zero, suc, ◌+◌, ◌%◌, Bool, ◌||◌, ◌&&◌, not, Option, none, some, List, [], ◌∷◌, ◌++◌, ltb, ◌==◌,
  if◌then◌else◌, length, drop,
}
use radstorm.Radius.Result.{
  Result, ok, err, value_too_long, not_ipv4, truncated_attribute, out_of_fuel,
}
use radstorm.Radius.Bytes.{slice, put_uint32, uint32}

pub record Attribute : Type 0 where
  pub typ : ℕ  -- uint8
  pub value : List ℕ

abbrev pub AttributeList : Type 0
AttributeList = List Attribute

abbrev pub max_attribute_value_length : ℕ
max_attribute_value_length = 253

-- AttributeList.Add: the list with the attribute behind it, or an error and no change
unfoldable pub add : AttributeList → ℕ → List ℕ → Result AttributeList
add a typ value =
    if ltb max_attribute_value_length (length value)
    then err value_too_long
    else ok (a ++ record { typ = typ; value = value } ∷ [])

-- AttributeList.AddString, on the bytes of the string
unfoldable pub add_string : AttributeList → ℕ → List ℕ → Result AttributeList
unfolding add
add_string a typ value = add a typ value

-- AttributeList.AddUint32
unfoldable pub add_uint32 : AttributeList → ℕ → ℕ → Result AttributeList
unfolding add
add_uint32 a typ value = add a typ (put_uint32 value)

-- AttributeList.AddIPv4; the argument is what `ip.To4()` returned
unfoldable pub add_ipv4 : AttributeList → ℕ → Option (List ℕ) → Result AttributeList
unfolding add
add_ipv4 a typ none = err not_ipv4
add_ipv4 a typ (some v4) = add a typ v4

-- AttributeList.Get
unfoldable pub get : AttributeList → ℕ → Option Attribute
get [] typ = none
get (attr ∷ rest) typ = if attr.typ == typ then some attr else get rest typ

-- AttributeList.GetAll
unfoldable pub get_all : AttributeList → ℕ → List Attribute
get_all [] typ = []
get_all (attr ∷ rest) typ =
    let out = get_all rest typ in if attr.typ == typ then attr ∷ out else out

-- AttributeList.GetString; [] stands for ""
unfoldable pub get_string : AttributeList → ℕ → List ℕ
unfolding get
get_string a typ = elim (get a typ) [ none ↦ [] | some attr ↦ attr.value ]

four_bytes : Option Attribute → Option (List ℕ)
four_bytes none = none
four_bytes (some attr) = if length attr.value == 4 then some attr.value else none

-- AttributeList.GetUint32
unfoldable pub get_uint32 : AttributeList → ℕ → Option ℕ
unfolding get four_bytes
get_uint32 a typ = elim (four_bytes (get a typ)) [ none ↦ none | some v ↦ some (uint32 v) ]

-- AttributeList.GetIPv4
unfoldable pub get_ipv4 : AttributeList → ℕ → Option (List ℕ)
unfolding get four_bytes
get_ipv4 a typ = four_bytes (get a typ)

-- AttributeList.Remove: the list left and the number removed
unfoldable pub remove : AttributeList → ℕ → AttributeList × ℕ
remove [] typ = ([], 0)
remove (attr ∷ rest) typ =
    let (out, removed) = remove rest typ in
    if attr.typ == typ then (out, suc removed) else (attr ∷ out, removed)

-- The loop of encodeAttributes over the attributes left, with the bytes written so far.
unfoldable pub encode_loop : List ℕ → AttributeList → Result (List ℕ)
encode_loop out [] = ok out
encode_loop out (attr ∷ rest) =
    let next = encode_loop (out ++ (attr.typ ∷ (2 + length attr.value) % 256 ∷ attr.value)) rest in
    if ltb max_attribute_value_length (length attr.value) then err value_too_long else next

-- encodeAttributes
unfoldable pub encode_attributes : AttributeList → Result (List ℕ)
unfolding encode_loop
encode_attributes list = encode_loop [] list

-- The loop of decodeAttributes on fuel, with the attributes read so far.
unfoldable pub decode_loop : ℕ → List ℕ → AttributeList → Result AttributeList
decode_loop fuel [] list = ok list
decode_loop zero (b ∷ bytes) list = err out_of_fuel
decode_loop (suc fuel) (typ ∷ []) list = err truncated_attribute
decode_loop (suc fuel) (typ ∷ n ∷ bytes) list =
    let input = typ ∷ n ∷ bytes in
    let next =
      decode_loop fuel (drop n input)
        (list ++ record { typ = typ; value = slice 2 n input } ∷ []) in
    if ltb n 2 || ltb (length input) n then err truncated_attribute else next

-- decodeAttributes. Each round takes two bytes at least, so a round for each byte is enough.
unfoldable pub decode_attributes : List ℕ → Result AttributeList
unfolding decode_loop
decode_attributes bytes = decode_loop (length bytes) bytes []
