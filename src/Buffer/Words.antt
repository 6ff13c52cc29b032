-- ===== src/Buffer/Words.antt =====
-- packages/jellyfish-buffer/src/Composer.ts: the composers `uInt8`, `uInt16` and `uInt32`.
use jellyfishsdk.Prelude.{ℕ, ◌/◌, ◌%◌, ◌^◌, ◌<◌, ◌≡◌, arith}
use jellyfishsdk.Prelude.{List, [], ◌∷◌, ◌++◌, All, ok}
use jellyfishsdk.Platform.{IsByte, SmartBuffer}
use jellyfishsdk.Buffer.Codec.{Codec, RoundTrip}

-- The bytes of a number, the lowest first.
abbrev pub bytes16 : ℕ → List ℕ
bytes16 v = v % 256 ∷ v / 256 ∷ []

abbrev pub bytes32 : ℕ → List ℕ
bytes32 v = v % 256 ∷ v / 256 % 256 ∷ v / 65536 % 256 ∷ v / 16777216 ∷ []

module _ ⦃sb : SmartBuffer⦄ where
  abbrev pub uint8 : Codec ℕ
  uint8 = record { from_buffer = sb.read_uint8; to_buffer = sb.write_uint8 }

  abbrev pub uint16 : Codec ℕ
  uint16 = record { from_buffer = sb.read_uint16_le; to_buffer = sb.write_uint16_le }

  abbrev pub uint32 : Codec ℕ
  uint32 = record { from_buffer = sb.read_uint32_le; to_buffer = sb.write_uint32_le }

  pub read-bytes16 : (v : ℕ) (rest : List ℕ) → sb.read_uint16_le (bytes16 v ++ rest) ≡ ok (v, rest)
  read-bytes16 v rest = ground (arith, sb.read_uint16_le_lem (v % 256) (v / 256) rest)

  pub read-bytes32 : (v : ℕ) (rest : List ℕ) → sb.read_uint32_le (bytes32 v ++ rest) ≡ ok (v, rest)
  read-bytes32 v rest =
      ground (
        arith,
        sb.read_uint32_le_lem (v % 256) (v / 256 % 256) (v / 65536 % 256) (v / 16777216) rest,
      )

  pub uint8-RoundTrip : RoundTrip uint8 (λ v. v < 256)
  uint8-RoundTrip v h = (v ∷ [], sb.write_uint8_lem v h, (h, tt), sb.read_uint8_lem v)

  pub uint16-RoundTrip : RoundTrip uint16 (λ v. v < 65536)
  uint16-RoundTrip v h = (bytes16 v, sb.write_uint16_le_lem v h, omega arith, read-bytes16 v)

  pub uint32-RoundTrip : RoundTrip uint32 (λ v. v < 2 ^ 32)
  uint32-RoundTrip v h = (bytes32 v, sb.write_uint32_le_lem v h, omega arith, read-bytes32 v)

  -- What a fixed-width read returns fits its width, and leaves bytes.
  pub read_uint8-bounds :
      (bs rest : List ℕ) (n : ℕ)
      → All IsByte bs
      → sb.read_uint8 bs ≡ ok (n, rest)
      → (n < 256) × All IsByte rest
  read_uint8-bounds [] rest n h e = cc (sb.read_uint8_end)
  read_uint8-bounds (a ∷ bs) rest n h e = ground (arith, sb.read_uint8_lem a bs)

  pub read_uint16-bounds :
      (bs rest : List ℕ) (n : ℕ)
      → All IsByte bs
      → sb.read_uint16_le bs ≡ ok (n, rest)
      → (n < 65536) × All IsByte rest
  read_uint16-bounds [] rest n h e = ground (arith, sb.read_uint16_le_end [])
  read_uint16-bounds (a ∷ []) rest n h e = ground (arith, sb.read_uint16_le_end (a ∷ []))
  read_uint16-bounds (a ∷ b ∷ bs) rest n h e = ground (arith, sb.read_uint16_le_lem a b bs)

  pub read_uint32-bounds :
      (bs rest : List ℕ) (n : ℕ)
      → All IsByte bs
      → sb.read_uint32_le bs ≡ ok (n, rest)
      → (n < 2 ^ 32) × All IsByte rest
  read_uint32-bounds [] rest n h e = ground (arith, sb.read_uint32_le_end [])
  read_uint32-bounds (a ∷ []) rest n h e = ground (arith, sb.read_uint32_le_end (a ∷ []))
  read_uint32-bounds (a ∷ b ∷ []) rest n h e = ground (arith, sb.read_uint32_le_end (a ∷ b ∷ []))
  read_uint32-bounds (a ∷ b ∷ c ∷ []) rest n h e =
      ground (arith, sb.read_uint32_le_end (a ∷ b ∷ c ∷ []))
  read_uint32-bounds (a ∷ b ∷ c ∷ d ∷ bs) rest n h e =
      ground (arith, sb.read_uint32_le_lem a b c d bs)
