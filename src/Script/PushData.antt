-- ===== src/Script/PushData.antt =====
-- packages/jellyfish-transaction/src/script/data.ts: the length bytes of `OP_PUSHDATA`.
use jellyfishsdk.Prelude.{ℕ, ◌<◌, ◌≤◌, ◌≡◌, arith}
use jellyfishsdk.Prelude.{List, [], ◌∷◌, ◌++◌, length, All, ltb, leb, ◌==◌, if◌then◌else◌}
use jellyfishsdk.Prelude.{take-append_exact, drop-append_exact}
use jellyfishsdk.Prelude.{Result, ok, err, ◌>>=◌, push_data_too_large, invalid_push_data, lt→ltb}
use native.Mathlib.Decide.{dec_lt}
use jellyfishsdk.Platform.{IsByte, SmartBuffer}
use jellyfishsdk.Buffer.Words.{bytes16, bytes32, read-bytes16, read-bytes32}

module _ ⦃sb : SmartBuffer⦄ where
  tagged : ℕ → Result (List ℕ) → Result (List ℕ)
  tagged tag number = do first ← sb.write_uint8 tag; bytes ← number; ok (first ++ bytes)

  -- `OP_PUSHDATA.getLenOpBuffer`
  unfoldable pub get_len_op_buffer : ℕ → Result (List ℕ)
  unfolding tagged
  get_len_op_buffer n =
      if ltb n 76
      then sb.write_uint8 n
      else if leb n 255
      then tagged 0x4c (sb.write_uint8 n)
      else if leb n 65535
      then tagged 0x4d (sb.write_uint16_le n)
      else if leb n 16777215
      then tagged 0x4e (sb.write_uint32_le n)
      else err push_data_too_large

  unfoldable pub read_counted : Result (ℕ × List ℕ) → Result (List ℕ × List ℕ)
  read_counted number = do (n, rest) ← number; ok (sb.read_buffer n rest)

  -- `OP_PUSHDATA.readData`
  unfoldable pub read_data : ℕ → List ℕ → Result (List ℕ × List ℕ)
  read_data tag bs =
      if ltb tag 0x4c
      then ok (sb.read_buffer tag bs)
      else if tag == 0x4c
      then read_counted (sb.read_uint8 bs)
      else if tag == 0x4d
      then read_counted (sb.read_uint16_le bs)
      else if tag == 0x4e
      then read_counted (sb.read_uint32_le bs)
      else err invalid_push_data

  pub read_buffer-front : (bs rest : List ℕ) → sb.read_buffer (length bs) (bs ++ rest) ≡ (bs, rest)
  read_buffer-front bs rest = rw (
    sb.read_buffer_lem (length bs) (bs ++ rest),
    take-append_exact bs rest,
    drop-append_exact bs rest,
  )

  -- The bytes in front of n bytes of data, and how they are read.
  abbrev pub PushPrefix : ℕ → Type 0
  PushPrefix n =
      (tag : ℕ) × (more : List ℕ) × (get_len_op_buffer n ≡ ok (tag ∷ more))
      × All IsByte (tag ∷ more)
      × (0 < tag)
      × (tag ≤ 0x4e)
      × ((bs rest : List ℕ) → length bs ≡ n → read_data tag (more ++ bs ++ rest) ≡ ok (bs, rest))

  short_prefix : (n : ℕ) → 0 < n → n < 76 → PushPrefix n
  unfolding get_len_op_buffer read_data
  short_prefix n pos h = (
    n,
    [],
    rw (lt→ltb n 76 h) (sb.write_uint8_lem n (omega arith)),
    omega arith,
    pos,
    omega arith,
    λ bs rest e. rw (lt→ltb n 0x4c h, ← e) (ap-ok (read_buffer-front bs rest)),
  )
    where
      ap-ok : {p q : List ℕ × List ℕ} → p ≡ q → ok p ≡ ok q
      ap-ok e = cc

  read_counted-front :
      (number : Result (ℕ × List ℕ)) (bs rest : List ℕ)
      → number ≡ ok (length bs, bs ++ rest)
      → read_counted number ≡ ok (bs, rest)
  unfolding read_counted
  read_counted-front number bs rest e = rw (e, read_buffer-front bs rest)

  byte_prefix : (n : ℕ) → 76 ≤ n → n ≤ 255 → PushPrefix n
  unfolding get_len_op_buffer read_data
  byte_prefix n lo hi = (
    0x4c,
    n ∷ [],
    ground (arith, sb.write_uint8_lem 0x4c, sb.write_uint8_lem n),
    omega arith,
    omega arith,
    omega arith,
    λ bs rest e.
        read_counted-front (sb.read_uint8 (n ∷ (bs ++ rest))) bs rest
          (rw e (sb.read_uint8_lem n (bs ++ rest))),
  )

  word_prefix : (n : ℕ) → 255 < n → n ≤ 65535 → PushPrefix n
  unfolding get_len_op_buffer read_data
  word_prefix n lo hi = (
    0x4d,
    bytes16 n,
    ground (arith, sb.write_uint8_lem 0x4d, sb.write_uint16_le_lem n),
    omega arith,
    omega arith,
    omega arith,
    λ bs rest e.
        read_counted-front (sb.read_uint16_le (bytes16 n ++ bs ++ rest)) bs rest
          (rw e (read-bytes16 n (bs ++ rest))),
  )

  long_prefix : (n : ℕ) → 65535 < n → n ≤ 16777215 → PushPrefix n
  unfolding get_len_op_buffer read_data
  long_prefix n lo hi = (
    0x4e,
    bytes32 n,
    ground (arith, sb.write_uint8_lem 0x4e, sb.write_uint32_le_lem n),
    omega arith,
    omega arith,
    omega arith,
    λ bs rest e.
        read_counted-front (sb.read_uint32_le (bytes32 n ++ bs ++ rest)) bs rest
          (rw e (read-bytes32 n (bs ++ rest))),
  )

  -- Every length from 1 to 16777215 has a prefix.
  pub push_prefix : (n : ℕ) → 0 < n → n ≤ 16777215 → PushPrefix n
  push_prefix n pos h = elim (dec_lt n 76) [
    | yes short ↦ short_prefix n pos short
    | no a ↦ elim (dec_lt 255 n) [
      | no b ↦ byte_prefix n (omega arith) (omega arith)
      | yes b ↦ elim (dec_lt 65535 n) [
        | no c ↦ word_prefix n b (omega arith)
        | yes c ↦ long_prefix n c h
      ]
    ]
  ]

  -- Longer data is refused.
  pub get_len_op_buffer_large :
      (n : ℕ) → 16777215 < n → get_len_op_buffer n ≡ err push_data_too_large
  unfolding get_len_op_buffer
  get_len_op_buffer_large n h = ground arith

  -- No length bytes for no data but those of OP_0.
  pub get_len_op_buffer_zero : get_len_op_buffer 0 ≡ ok (0 ∷ [])
  unfolding get_len_op_buffer
  get_len_op_buffer_zero = sb.write_uint8_lem 0 (omega arith)
