-- ===== src/Radius/Bytes.antt =====
-- Bytes, and the big-endian integers of encoding/binary.
use radstorm.Prelude.{
  ℕ, suc, ◌+◌, ◌-◌, ◌*◌, ◌/◌, ◌%◌, ◌^◌, ◌<◌, ◌≡◌, List, [], ◌∷◌, arith, All, take, drop, get_or,
}

abbrev pub IsByte : ℕ → Type 0
IsByte b = b < 256

-- data[lo:hi]
abbrev pub slice {ℓ} : {A : Type ℓ} → ℕ → ℕ → List A → List A
slice lo hi xs = take (hi - lo) (drop lo xs)

-- binary.BigEndian.PutUint16, PutUint32
abbrev pub put_uint16 : ℕ → List ℕ
put_uint16 v = v / 256 % 256 ∷ v % 256 ∷ []

abbrev pub put_uint32 : ℕ → List ℕ
put_uint32 v = v / 16777216 % 256 ∷ v / 65536 % 256 ∷ v / 256 % 256 ∷ v % 256 ∷ []

-- binary.BigEndian.Uint16, Uint32, of the bytes from `off` on
abbrev pub uint16_at : ℕ → List ℕ → ℕ
uint16_at off bytes = get_or bytes off 0 * 256 + get_or bytes (suc off) 0

abbrev pub uint32 : List ℕ → ℕ
uint32 bytes =
    get_or bytes 0 0 * 16777216
    + get_or bytes 1 0 * 65536
    + get_or bytes 2 0 * 256
    + get_or bytes 3 0

pub uint32-put_uint32 : (v : ℕ) → v < 2 ^ 32 → uint32 (put_uint32 v) ≡ v
uint32-put_uint32 v h = omega arith

pub put_uint32-IsByte : (v : ℕ) → All IsByte (put_uint32 v)
put_uint32-IsByte v = omega arith

pub put_uint32-uint32 :
    (a b c d : ℕ)
    → IsByte a
    → IsByte b
    → IsByte c
    → IsByte d
    → put_uint32 (uint32 (a ∷ b ∷ c ∷ d ∷ [])) ≡ a ∷ b ∷ c ∷ d ∷ []
put_uint32-uint32 a b c d ha hb hc hd = ground arith
