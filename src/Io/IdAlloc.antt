-- ===== src/Io/IdAlloc.antt =====
-- idBitmap of pkg/io/idalloc.go: the 256 identifiers of one tuple of addresses, as four words of
-- 64 bits, a count and the place where the next scan starts. `bits[w]&bit`, `|= bit` and `&^= bit`
-- for `bit = 1 << k` are functions of the binary digits of the word. The mutex is held by each
-- operation from its first line to its last.
pub mod Bits
pub mod Scan
pub mod Allocate
pub mod Tuples
use radstorm.Prelude.{
  ℕ, zero, suc, ◌+◌, ◌-◌, ◌*◌, ◌/◌, ◌%◌, Bool, true, false, Option, none, some, List, [], ◌∷◌, ◌==◌,
  if◌then◌else◌, get_or, set,
}

-- w & (1 << k) != 0
unfoldable pub bit_test : ℕ → ℕ → Bool
bit_test w zero = w % 2 == 1
bit_test w (suc k) = bit_test (w / 2) k

-- w | (1 << k)
unfoldable pub bit_set : ℕ → ℕ → ℕ
bit_set w zero = w / 2 * 2 + 1
bit_set w (suc k) = bit_set (w / 2) k * 2 + w % 2

-- w &^ (1 << k)
unfoldable pub bit_clear : ℕ → ℕ → ℕ
bit_clear w zero = w / 2 * 2
bit_clear w (suc k) = bit_clear (w / 2) k * 2 + w % 2

pub record IdBitmap : Type 0 where
  pub bits : List ℕ  -- [4]uint64
  pub count : ℕ
  pub next : ℕ  -- uint8

unfoldable pub in_use : List ℕ → ℕ → Bool
unfolding bit_test
in_use bits id = bit_test (get_or bits (id / 64) 0) (id % 64)

unfoldable pub mark : List ℕ → ℕ → List ℕ
unfolding bit_set
mark bits id = set bits (id / 64) (bit_set (get_or bits (id / 64) 0) (id % 64))

unfoldable pub unmark : List ℕ → ℕ → List ℕ
unfolding bit_clear
unmark bits id = set bits (id / 64) (bit_clear (get_or bits (id / 64) 0) (id % 64))

-- The loop of allocate with `left` rounds left: the identifier that it finds.
unfoldable pub scan : ℕ → ℕ → List ℕ → Option ℕ
unfolding in_use
scan zero next bits = none
scan (suc left) next bits =
    let id = (next + (256 - suc left)) % 256 in
    let rest = scan left next bits in if in_use bits id then rest else some id

take_id : IdBitmap → Option ℕ → IdBitmap × Option ℕ
unfolding mark
take_id b none = (b, none)
take_id b (some id) =
    (record { bits = mark b.bits id; count = suc b.count; next = (id + 1) % 256 }, some id)

-- allocate
unfoldable pub allocate : IdBitmap → IdBitmap × Option ℕ
unfolding scan take_id
allocate b = if b.count == 256 then (b, none) else take_id b (scan 256 b.next b.bits)

-- release
unfoldable pub release : IdBitmap → ℕ → IdBitmap
unfolding in_use unmark
release b id =
    if in_use b.bits id then record b { bits = unmark b.bits id; count = b.count - 1 } else b
