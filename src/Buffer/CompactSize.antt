-- ===== src/Buffer/CompactSize.antt =====
-- packages/jellyfish-buffer/src/CompactSize.ts: a number in 1, 3, 5 or 9 bytes.
use jellyfishsdk.Prelude.{ℕ, ◌+◌, ◌*◌, ◌/◌, ◌%◌, ◌^◌, ◌<◌, ◌≤◌, ◌≡◌, arith}
use jellyfishsdk.Prelude.{List, [], ◌∷◌, ◌++◌, length, All, ltb, leb, ◌==◌, if◌then◌else◌}
use jellyfishsdk.Prelude.{
  Result, ok, err, ◌>>=◌, ◌>>◌, >>=-eq-ok, ◌∙◌, le→leb, throw_if, unsafe_integer, end_of_buffer,
}
use jellyfishsdk.Platform.{IsByte, SmartBuffer}
use jellyfishsdk.Buffer.Codec.{Codec, RoundTrip, SizedReadBack}
use jellyfishsdk.Buffer.Words.{bytes16, bytes32, read-bytes16, read-bytes32}
use jellyfishsdk.Buffer.Words.{read_uint8-bounds, read_uint16-bounds, read_uint32-bounds}

-- `Number.MAX_SAFE_INTEGER`
abbrev pub max_safe_integer : ℕ
max_safe_integer = 9007199254740991

-- A natural number is neither negative nor fractional: only the upper bound is tested.
abbrev pub validate_uint53 : ℕ → Result (Unit {0})
validate_uint53 num = throw_if (ltb max_safe_integer num) unsafe_integer

module _ ⦃sb : SmartBuffer⦄ where
  -- The first byte, and then the number that it announces.
  unfoldable pub write_tagged : ℕ → Result (List ℕ) → Result (List ℕ)
  write_tagged first number = do tag ← sb.write_uint8 first; bytes ← number; ok (tag ++ bytes)

  -- `num >>> 0` is num modulo 2^32. `(num / 0x100000000) | 0` is the quotient, below 2^21.
  unfoldable pub write_words : ℕ → Result (List ℕ)
  write_words num = do
    lo ← sb.write_uint32_le (num % 2 ^ 32)
    hi ← sb.write_uint32_le (num / 2 ^ 32)
    ok (lo ++ hi)

  unfoldable pub write_compact_size : ℕ → Result (List ℕ)
  write_compact_size num = do
    validate_uint53 num
    if ltb num 0xfd
        then sb.write_uint8 num
        else if leb num 0xffff
        then write_tagged 0xfd (sb.write_uint16_le num)
        else if leb num 0xffff_ffff
        then write_tagged 0xfe (sb.write_uint32_le num)
        else write_tagged 0xff (write_words num)

  unfoldable pub read_words : List ℕ → Result (ℕ × List ℕ)
  read_words bs = do
    (lo, rest) ← sb.read_uint32_le bs
    (hi, rest') ← sb.read_uint32_le rest
    let num = hi * 2 ^ 32 + lo
    validate_uint53 num
    ok (num, rest')

  -- `switch (first)`
  unfoldable pub read_tagged : ℕ → List ℕ → Result (ℕ × List ℕ)
  read_tagged first rest =
      if first == 0xfd
      then sb.read_uint16_le rest
      else if first == 0xfe
      then sb.read_uint32_le rest
      else if first == 0xff
      then read_words rest
      else ok (first, rest)

  unfoldable pub read_compact_size : List ℕ → Result (ℕ × List ℕ)
  read_compact_size bs = do (first, rest) ← sb.read_uint8 bs; read_tagged first rest

abbrev pub byte_length : ℕ → Result ℕ
byte_length num = do
  validate_uint53 num
  ok (
      if ltb num 0xfd
      then 1
      else if leb num 0xffff
      then 3
      else if leb num 0xffff_ffff
      then 5
      else 9)

module _ ⦃sb : SmartBuffer⦄ where
  -- `ComposableBuffer.compactSize`
  abbrev pub compact_size : Codec ℕ
  compact_size = record { from_buffer = read_compact_size; to_buffer = write_compact_size }

  -- What `writeCompactSize` writes.
  unfoldable pub compact_bytes : ℕ → List ℕ
  compact_bytes n =
      if ltb n 0xfd
      then n ∷ []
      else if leb n 0xffff
      then 0xfd ∷ bytes16 n
      else if leb n 0xffff_ffff
      then 0xfe ∷ bytes32 n
      else 0xff ∷ (bytes32 (n % 2 ^ 32) ++ bytes32 (n / 2 ^ 32))

  write_words_lem :
      (n : ℕ) → n < 2 ^ 64 → write_words n ≡ ok (bytes32 (n % 2 ^ 32) ++ bytes32 (n / 2 ^ 32))
  unfolding write_words
  write_words_lem n h =
      rw (sb.write_uint32_le_lem (n % 2 ^ 32) (omega arith))
        (rw (sb.write_uint32_le_lem (n / 2 ^ 32) (omega arith)))

  write_tagged_lem :
      (first : ℕ) (number : Result (List ℕ)) (bytes : List ℕ)
      → first < 256
      → number ≡ ok bytes
      → write_tagged first number ≡ ok (first ∷ bytes)
  unfolding write_tagged
  write_tagged_lem first number bytes h e = rw (sb.write_uint8_lem first h, e)

  tagged_word16 :
      (n : ℕ) → n < 2 ^ 16 → write_tagged 0xfd (sb.write_uint16_le n) ≡ ok (0xfd ∷ bytes16 n)
  tagged_word16 n h = write_tagged_lem 0xfd _ _ (omega arith) (sb.write_uint16_le_lem n h)

  tagged_word32 :
      (n : ℕ) → n < 2 ^ 32 → write_tagged 0xfe (sb.write_uint32_le n) ≡ ok (0xfe ∷ bytes32 n)
  tagged_word32 n h = write_tagged_lem 0xfe _ _ (omega arith) (sb.write_uint32_le_lem n h)

  tagged_words :
      (n : ℕ)
      → n < 2 ^ 64
      → write_tagged 0xff (write_words n)
        ≡ ok (0xff ∷ (bytes32 (n % 2 ^ 32) ++ bytes32 (n / 2 ^ 32)))
  tagged_words n h = write_tagged_lem 0xff _ _ (omega arith) (write_words_lem n h)

  -- A safe integer is written as `compact_bytes`; any other number is refused.
  pub write_compact_size_lem :
      (n : ℕ)
      → write_compact_size n
        ≡ (if leb n max_safe_integer then ok (compact_bytes n) else err unsafe_integer)
  unfolding write_compact_size compact_bytes
  write_compact_size_lem n =
      ground (arith, sb.write_uint8_lem n, tagged_word16 n, tagged_word32 n, tagged_words n)

  pub read_compact_size-empty : read_compact_size [] ≡ err end_of_buffer
  unfolding read_compact_size
  read_compact_size-empty = rw sb.read_uint8_end

  read_words_lem :
      (n : ℕ) (rest : List ℕ)
      → n ≤ max_safe_integer
      → read_words (bytes32 (n % 2 ^ 32) ++ bytes32 (n / 2 ^ 32) ++ rest) ≡ ok (n, rest)
  unfolding read_words
  read_words_lem n rest h =
      rw (read-bytes32 (n % 2 ^ 32) (bytes32 (n / 2 ^ 32) ++ rest), read-bytes32 (n / 2 ^ 32) rest)
        (ground arith)

  -- The bytes of a safe integer are read back.
  pub read_compact_size-compact_bytes :
      (n : ℕ) (rest : List ℕ)
      → n ≤ max_safe_integer
      → read_compact_size (compact_bytes n ++ rest) ≡ ok (n, rest)
  unfolding compact_bytes read_compact_size read_tagged
  read_compact_size-compact_bytes n rest h = ground (
    arith,
    sb.read_uint8_lem n rest,
    sb.read_uint8_lem 0xfd (bytes16 n ++ rest),
    sb.read_uint8_lem 0xfe (bytes32 n ++ rest),
    sb.read_uint8_lem 0xff (bytes32 (n % 2 ^ 32) ++ bytes32 (n / 2 ^ 32) ++ rest),
    read-bytes16 n rest,
    read-bytes32 n rest,
    read_words_lem n rest h,
  )

  pub compact_bytes-IsByte : (n : ℕ) → n ≤ max_safe_integer → All IsByte (compact_bytes n)
  unfolding compact_bytes
  compact_bytes-IsByte n h = ground arith

  pub compact_size-RoundTrip : RoundTrip compact_size (λ n. n ≤ max_safe_integer)
  compact_size-RoundTrip n h = (
    compact_bytes n,
    write_compact_size_lem n ∙ rw (le→leb n max_safe_integer h),
    compact_bytes-IsByte n h,
    λ rest. read_compact_size-compact_bytes n rest h,
  )

  -- `byteLength` is the number of bytes that `writeCompactSize` writes, and refuses what it refuses.
  pub byte_length_lem : (n : ℕ) → byte_length n ≡ (write_compact_size n >>= λ bs. ok (length bs))
  byte_length_lem n = rw (write_compact_size_lem n) (unfold compact_bytes in ground arith)

  read_words-bounds :
      (bs rest : List ℕ) (n : ℕ)
      → All IsByte bs
      → read_words bs ≡ ok (n, rest)
      → (n ≤ max_safe_integer) × All IsByte rest
  unfolding read_words
  read_words-bounds bs rest n h e =
      let ((lo, r), e₁, k₁) = >>=-eq-ok (sb.read_uint32_le bs) _ e in
      let ((hi, r'), e₂, k₂) = >>=-eq-ok (sb.read_uint32_le r) _ k₁ in
      let (_, hr) = read_uint32-bounds bs r lo h e₁ in
      ground (arith, read_uint32-bounds r r' hi hr e₂)

  read_tagged-bounds :
      (first n : ℕ) (bs rest : List ℕ)
      → first < 256
      → All IsByte bs
      → read_tagged first bs ≡ ok (n, rest)
      → (n ≤ max_safe_integer) × All IsByte rest
  unfolding read_tagged
  read_tagged-bounds first n bs rest lt h e = ground (
    arith,
    read_uint16-bounds bs rest n h,
    read_uint32-bounds bs rest n h,
    read_words-bounds bs rest n h,
  )

  -- On bytes, whatever `readCompactSize` returns is a safe integer, and bytes are left.
  pub read_compact_size-bounds :
      (bs rest : List ℕ) (n : ℕ)
      → All IsByte bs
      → read_compact_size bs ≡ ok (n, rest)
      → (n ≤ max_safe_integer) × All IsByte rest
  unfolding read_compact_size
  read_compact_size-bounds bs rest n h e =
      let ((first, r), e₁, k₁) = >>=-eq-ok (sb.read_uint8 bs) _ e in
      let (lt, hr) = read_uint8-bounds bs r first h e₁ in read_tagged-bounds first n r rest lt hr k₁

  -- A safe integer is written as one byte below 253, three below 2^16, five below 2^32 and nine from
  -- there on, and reading gives it back with whatever follows them.
  pub compact_size-ReadBack :
      (n : ℕ) (rest : List ℕ)
      → n ≤ max_safe_integer
      → SizedReadBack
          (λ size. size ≡ (
            if ltb n 253 then 1 else if ltb n (2 ^ 16) then 3 else if ltb n (2 ^ 32) then 5 else 9))
          compact_size
          n
          rest
  unfolding compact_bytes
  compact_size-ReadBack n rest h = (
    compact_bytes n,
    write_compact_size_lem n ∙ rw (le→leb n max_safe_integer h),
    compact_bytes-IsByte n h,
    ground arith,
    read_compact_size-compact_bytes n rest h,
  )
