-- ===== src/Radius/Attribute/Access.antt =====
-- What the accessors of the attribute list return after an addition or a removal.
use radstorm.Prelude.{
  ℕ, ◌+◌, ◌^◌, ◌<◌, ◌≡◌, refl, ◌∙◌, Option, none, some, [], ◌∷◌, ◌++◌, arith, ◌==◌, ==_refl,
  if◌then◌else◌, length,
}
use radstorm.Radius.Result.{ok}
use radstorm.Radius.Bytes.{put_uint32, uint32-put_uint32}
use radstorm.Radius.Attribute.{
  Attribute, AttributeList, add_uint32, get, get_all, get_uint32, remove,
}

-- The first attribute of a type, in a list cut in two.
or_else : Option Attribute → Option Attribute → Option Attribute
or_else none b = b
or_else (some a) b = some a

get-append : (l m : AttributeList) (typ : ℕ) → get (l ++ m) typ ≡ or_else (get l typ) (get m typ)
unfolding get or_else
get-append [] m typ = refl
get-append (attr ∷ rest) m typ = ground (arith, get-append rest m typ)

-- AddUint32 and then GetUint32 return the 32-bit value, where no attribute of the type came before
-- it.
pub get_uint32-add_uint32 :
    (l l' : AttributeList) (typ v : ℕ)
    → v < 2 ^ 32
    → get l typ ≡ none
    → add_uint32 l typ v ≡ ok l'
    → get_uint32 l' typ ≡ some v
unfolding add_uint32 get_uint32
get_uint32-add_uint32 l l' typ v hv fresh h =
    let fresh_first : get (l ++ record { typ = typ; value = put_uint32 v } ∷ []) typ
        ≡ some (record { typ = typ; value = put_uint32 v }) =
      get-append l _ typ ∙ rw fresh (unfold get or_else in rw ==_refl) in
    ground (arith, fresh_first, uint32-put_uint32 v hv)

get_all-remove :
    (l : AttributeList) (typ other : ℕ)
    → get_all (remove l typ).0 other ≡ (if typ == other then [] else get_all l other)
unfolding get_all remove
get_all-remove [] typ other = ground arith
get_all-remove (attr ∷ rest) typ other = ground (arith, get_all-remove rest typ other)

remove_counts :
    (l : AttributeList) (typ : ℕ)
    → ((remove l typ).1 ≡ length (get_all l typ))
      × (length (remove l typ).0 + (remove l typ).1 ≡ length l)
unfolding get_all remove
remove_counts [] typ = omega arith
remove_counts (attr ∷ rest) typ = ground (arith, remove_counts rest typ)

-- Remove keeps the attributes of every other type in their order, and returns how many attributes
-- of the type it took out.
pub remove_lem :
    (l : AttributeList) (typ other : ℕ)
    → (get_all (remove l typ).0 other ≡ (if typ == other then [] else get_all l other))
      × ((remove l typ).1 ≡ length (get_all l typ))
      × (length (remove l typ).0 + (remove l typ).1 ≡ length l)
remove_lem l typ other =
    let (taken, sizes) = remove_counts l typ in (get_all-remove l typ other, taken, sizes)
