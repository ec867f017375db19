-- ===== src/Radius/Auth/Password.antt =====
-- User-Password: decryption inverts encryption, up to the NUL bytes that pad the last block.
use radstorm.Prelude.{
  ℕ, zero, suc, ◌-◌, ◌*◌, ◌/◌, ◌%◌, ◌≤◌, ◌≡◌, ◌≢◌, ◌+◌, ◌<◌, ◌⊎◌, inl, inr, refl, sym, subst, ap,
  ◌∙◌, List, [], ◌∷◌, ◌++◌, arith, length, take, drop, replicate, All, length-append, length-take,
  length-drop, length-replicate, take-append, drop-append, take-append-drop, All-append, All-take,
  All-drop, All-replicate, le→ltb_false, ◌==◌, ==_iff, true, false,
}
use radstorm.Prelude.Bits.{bit_xor_cancel}
use mathlib.Core.List.{reverse, reverse-append, reverse-cons, reverse-reverse}
use radstorm.Radius.Result.{ok}
use radstorm.Radius.Bytes.{IsByte}
use radstorm.Radius.Auth.{
  Crypto, xor_bytes, padded_length, drop_nuls, strip_nuls, encrypt_blocks, encrypt_user_password,
  decrypt_blocks, decrypt_user_password,
}

length-xor_bytes : (xs ys : List ℕ) → length xs ≡ length ys → length (xor_bytes xs ys) ≡ length xs
unfolding xor_bytes
length-xor_bytes [] ys h = refl
length-xor_bytes (x ∷ xs) [] h = absurd (omega arith)
length-xor_bytes (x ∷ xs) (y ∷ ys) h = ap suc (length-xor_bytes xs ys (omega arith))

xor_bytes_cancel :
    (xs ys : List ℕ)
    → length xs ≡ length ys
    → All IsByte xs
    → All IsByte ys
    → xor_bytes (xor_bytes xs ys) ys ≡ xs
unfolding xor_bytes
xor_bytes_cancel [] ys h hx hy = refl
xor_bytes_cancel (x ∷ xs) [] h hx hy = absurd (omega arith)
xor_bytes_cancel (x ∷ xs) (y ∷ ys) h hx hy =
    cc (bit_xor_cancel x y hx.0 hy.0, xor_bytes_cancel xs ys (omega arith) hx.1 hy.1)

replicate-snoc : (k b : ℕ) → replicate k b ++ b ∷ [] ≡ b ∷ replicate k b
replicate-snoc zero b = refl
replicate-snoc (suc k) b = ap (λ l. b ∷ l) (replicate-snoc k b)

reverse-replicate : (k : ℕ) (b : ℕ) → reverse (replicate k b) ≡ replicate k b
reverse-replicate zero b = refl
reverse-replicate (suc k) b = rw (reverse-cons, reverse-replicate k b) (replicate-snoc k b)

drop_nuls-replicate : (k : ℕ) (l : List ℕ) → drop_nuls (replicate k 0 ++ l) ≡ drop_nuls l
unfolding drop_nuls
drop_nuls-replicate zero l = refl
drop_nuls-replicate (suc k) l = drop_nuls-replicate k l

strip_nuls_padded : (p : List ℕ) (k : ℕ) → strip_nuls (p ++ replicate k 0) ≡ strip_nuls p
unfolding strip_nuls
strip_nuls_padded p k = rw (reverse-append, reverse-replicate, drop_nuls-replicate)

-- A last byte that is not NUL stays.
strip_nuls_last : (p : List ℕ) (b : ℕ) → b ≢ 0 → strip_nuls (p ++ b ∷ []) ≡ p ++ b ∷ []
unfolding strip_nuls
strip_nuls_last p b h =
    let kept : drop_nuls (b ∷ reverse p) ≡ b ∷ reverse p = unfold drop_nuls in ground arith in
    rw (reverse-append, kept, reverse-cons, reverse-reverse)

module _ (crypto : Crypto) (secret : List ℕ) where
  -- One cipher block is sixteen bytes, and the same digest turns it back.
  block_size :
      (prev input : List ℕ)
      → 16 ≤ length input
      → length (xor_bytes (take 16 input) (crypto.md5 (secret ++ prev))) ≡ 16
  block_size prev input h =
      let size : length (take 16 input) ≡ 16 = omega (arith, length-take 16 input) in
      length-xor_bytes (take 16 input) _ (size ∙ sym (crypto.md5_length _)) ∙ size

  block_back :
      (prev input : List ℕ)
      → 16 ≤ length input
      → All IsByte input
      → xor_bytes
          (xor_bytes (take 16 input) (crypto.md5 (secret ++ prev)))
          (crypto.md5 (secret ++ prev))
        ≡ take 16 input
  block_back prev input h hb =
      xor_bytes_cancel (take 16 input) _
        (omega (arith, length-take 16 input, crypto.md5_length (secret ++ prev)))
        (All-take IsByte 16 input hb) (crypto.md5_bytes _)

  pub length-encrypt_blocks :
      (n : ℕ) (prev input : List ℕ)
      → length input ≡ n * 16
      → length (encrypt_blocks crypto n secret prev input) ≡ n * 16
  unfolding encrypt_blocks
  length-encrypt_blocks zero prev input h = refl
  length-encrypt_blocks (suc n) prev input h =
      let block = xor_bytes (take 16 input) (crypto.md5 (secret ++ prev)) in
      omega (
        arith,
        length-append block (encrypt_blocks crypto n secret block (drop 16 input)),
        block_size prev input (omega arith),
        length-encrypt_blocks n block (drop 16 input) (omega (arith, length-drop 16 input)),
      )

  decrypt_blocks-encrypt_blocks :
      (n : ℕ) (prev input : List ℕ)
      → length input ≡ n * 16
      → All IsByte input
      → decrypt_blocks crypto n secret prev (encrypt_blocks crypto n secret prev input) ≡ input
  unfolding encrypt_blocks decrypt_blocks
  decrypt_blocks-encrypt_blocks zero prev [] h hb = refl
  decrypt_blocks-encrypt_blocks zero prev (x ∷ xs) h hb = absurd (omega arith)
  decrypt_blocks-encrypt_blocks (suc n) prev input h hb =
      let block = xor_bytes (take 16 input) (crypto.md5 (secret ++ prev)) in
      let rest = encrypt_blocks crypto n secret block (drop 16 input) in
      let size : length block ≡ 16 = block_size prev input (omega arith) in
      rw
        (
          take-append 16 block rest size,
          drop-append 16 block rest size,
          block_back prev input (omega arith) hb,
          decrypt_blocks-encrypt_blocks n block (drop 16 input)
              (omega (arith, length-drop 16 input)) (All-drop IsByte 16 input hb),
        )
        (take-append-drop 16 input)

padded_length_lem :
    (n : ℕ)
    → (n ≤ padded_length n) × (padded_length n ≡ padded_length n / 16 * 16) × (16 ≤ padded_length n)
unfolding padded_length
padded_length_lem n = ground arith

-- A size is the number rounded up to a multiple of 16, and to 16 itself below that.
abbrev pub IsPadded : (n size : ℕ) → Type 0
IsPadded n size = (size % 16 ≡ 0) × (16 ≤ size) × (n ≤ size) × ((size ≡ 16) ⊎ (size < n + 16))

padded_length-IsPadded : (n : ℕ) → IsPadded n (padded_length n)
unfolding padded_length
padded_length-IsPadded zero = (refl, omega arith, omega arith, inl refl)
padded_length-IsPadded (suc n) =
    let big : (suc n + 15) / 16 * 16 ≢ 0 = λ e. absurd (omega (arith, e)) in
    let kept : ((suc n + 15) / 16 * 16 == 0) ≡ false = ground (arith, big) in
    rw kept (omega arith, omega arith, omega arith, inr (omega arith))

decrypt_blocks_opened :
    (crypto : Crypto) (c secret authenticator : List ℕ) (n : ℕ)
    → length c ≡ n * 16
    → 1 ≤ n
    → decrypt_user_password crypto c secret authenticator
      ≡ ok (strip_nuls (decrypt_blocks crypto n secret authenticator c))
unfolding decrypt_user_password
decrypt_blocks_opened crypto c secret authenticator n h pos =
    let whole : (length c % 16 == 0) ≡ true = (==_iff _ 0).1 (omega arith) in
    let some_bytes : (length c == 0) ≡ false = ground arith in
    let rounds : length c / 16 ≡ n = omega arith in rw (whole, some_bytes, rounds)

-- A password of at most 128 bytes is encrypted to the least multiple of 16 bytes that is positive
-- and not shorter than it, and DecryptUserPassword under the same secret and authenticator returns
-- it without the NUL bytes at its end.
pub decrypt-encrypt_user_password :
    (crypto : Crypto) (password secret authenticator : List ℕ)
    → length password ≤ 128
    → All IsByte password
    → (c : List ℕ) × (encrypt_user_password crypto password secret authenticator ≡ ok c)
      × IsPadded (length password) (length c)
      × (decrypt_user_password crypto c secret authenticator ≡ ok (strip_nuls password))
unfolding encrypt_user_password decrypt_user_password
decrypt-encrypt_user_password crypto password secret authenticator short hb =
    let size = padded_length (length password) in
    let (room, whole, big) = padded_length_lem (length password) in
    let pad : List ℕ = replicate (size - length password) 0 in
    let padded : List ℕ = password ++ pad in
    let full : length padded ≡ size / 16 * 16 =
      omega
        (arith, length-append password pad, length-replicate {A = ℕ} (size - length password) 0) in
    let bytes : All IsByte padded =
      All-append IsByte password pad hb (All-replicate IsByte _ 0 (omega arith)) in
    let c = encrypt_blocks crypto (size / 16) secret authenticator padded in
    let c_size : length c ≡ size =
      omega (arith, length-encrypt_blocks crypto secret (size / 16) authenticator padded full) in
    (
      c,
      rw (le→ltb_false 128 (length password) short) refl,
      subst (IsPadded (length password)) (sym c_size) (padded_length-IsPadded (length password)),
      decrypt_blocks_opened crypto c secret authenticator (size / 16) (omega arith) (omega arith)
          ∙ ap (λ p. ok (strip_nuls p))
              (decrypt_blocks-encrypt_blocks crypto secret (size / 16) authenticator padded full
                bytes)
          ∙ ap ok (strip_nuls_padded password (size - length password)),
    )

-- A password of at most 128 bytes that does not end in NUL comes back unchanged.
pub decrypt-encrypt_exact :
    (crypto : Crypto) (password secret authenticator c : List ℕ) (last : ℕ)
    → length password ≤ 127
    → All IsByte password
    → IsByte last
    → last ≢ 0
    → encrypt_user_password crypto (password ++ last ∷ []) secret authenticator ≡ ok c
    → decrypt_user_password crypto c secret authenticator ≡ ok (password ++ last ∷ [])
decrypt-encrypt_exact crypto password secret authenticator c last short hb hl nonzero h =
    let whole = password ++ last ∷ [] in
    let (c', e, _, d) =
      decrypt-encrypt_user_password crypto whole secret authenticator
        (omega (arith, length-append password (last ∷ [])))
        (All-append IsByte password (last ∷ []) hb (hl, tt)) in
    cc (d, e, h, strip_nuls_last password last nonzero)
