-- ===== src/Buffer/BitMask.antt =====
-- packages/jellyfish-buffer/src/BitMask.ts, and the composer `bitmask1Byte` of Composer.ts.
use jellyfishsdk.Prelude.{ℕ, zero, suc, ◌+◌, ◌*◌, ◌/◌, ◌%◌, ◌^◌, ◌<◌, ◌≤◌, ◌≡◌, refl, arith, ap}
use jellyfishsdk.Prelude.{List, [], ◌∷◌, length, Bool, if◌then◌else◌, ◌==◌}
use jellyfishsdk.Prelude.{ok, ◌>>=◌}
use native.Mathlib.Nat.{div-one, pow-suc, div-div-eq-div-mul, div-lt_iff_lt-mul, one-le-pow}
use native.Mathlib.Nat.{pow-le-pow_right}
use jellyfishsdk.Platform.{SmartBuffer}
use jellyfishsdk.Buffer.Codec.{Codec, RoundTrip, SizedReadBack}

-- `Boolean(binaryNum & (1 << position))`: `<<` takes the position modulo 32.
unfoldable pub get_bits_from : ℕ → ℕ → Bool
get_bits_from num position = num / 2 ^ (position % 32) % 2 == 1

-- The loop `array.unshift(getBitsFrom(num, i))`: the last position comes first.
unfoldable pub read_bits : ℕ → ℕ → List Bool
read_bits zero num = []
read_bits (suc i) num = get_bits_from num i ∷ read_bits i num

bit : Bool → ℕ
bit b = if b then 1 else 0

-- `parseInt(bools.join(''), 2)`: the first digit is the highest.
unfoldable pub parse_bits : ℕ → List Bool → ℕ
unfolding bit
parse_bits acc [] = acc
parse_bits acc (b ∷ bs) = parse_bits (2 * acc + bit b) bs

module _ ⦃sb : SmartBuffer⦄ where
  -- `Buffer.from([num])` keeps the low 8 bits.
  abbrev pub bitmask1_byte : ℕ → Codec (List Bool)
  bitmask1_byte n = record {
    from_buffer = λ bs. do
      (num, rest) ← sb.read_uint8 bs
      ok (read_bits n num, rest);
    to_buffer = λ bools. ok (parse_bits 0 bools % 256 ∷ []);
  }

-- The bits below the first ones do not reach them.
parse_bits-high : (acc : ℕ) (bs : List Bool) → parse_bits acc bs / 2 ^ length bs ≡ acc
unfolding parse_bits
parse_bits-high acc [] = div-one acc
parse_bits-high acc (b ∷ bs) =
    rw (pow-suc, ← div-div-eq-div-mul, parse_bits-high (2 * acc + bit b) bs) (halved b)
  where
    halved : (b : Bool) → (2 * acc + bit b) / 2 ≡ acc
    halved b = unfold bit in ground arith

read_bits-parse_bits :
    (acc : ℕ) (bs : List Bool) → length bs ≤ 32 → read_bits (length bs) (parse_bits acc bs) ≡ bs
unfolding read_bits parse_bits get_bits_from
read_bits-parse_bits acc [] h = refl
read_bits-parse_bits acc (b ∷ bs) h =
    let low : length bs % 32 ≡ length bs = omega arith in
    rw
      (
        low,
        parse_bits-high (2 * acc + bit b) bs,
        read_bits-parse_bits (2 * acc + bit b) bs (omega arith),
      )
      (ap (λ c. c ∷ bs) (low_bit b))
  where
    low_bit : (b : Bool) → ((2 * acc + bit b) % 2 == 1) ≡ b
    low_bit b = unfold bit in ground arith

parse_bits-lt : (bs : List Bool) → length bs ≤ 8 → parse_bits 0 bs < 256
parse_bits-lt bs h =
    let below : parse_bits 0 bs < 1 * 2 ^ length bs =
      (div-lt_iff_lt-mul (one-le-pow (length bs) 2 (omega arith))).0
        (omega (arith, parse_bits-high 0 bs)) in
    omega (arith, below, pow-le-pow_right {n = 2} (omega arith) h)

module _ ⦃sb : SmartBuffer⦄ where
  -- The flags of a class are read back in their order, up to eight of them.
  pub bitmask1_byte-RoundTrip :
      (n : ℕ) → n ≤ 8 → RoundTrip (bitmask1_byte n) (λ bools. length bools ≡ n)
  bitmask1_byte-RoundTrip n h bools e =
      let same : parse_bits 0 bools % 256 ≡ parse_bits 0 bools =
        omega (arith, parse_bits-lt bools (omega arith)) in
      (
        parse_bits 0 bools % 256 ∷ [],
        refl,
        (omega arith, tt),
        λ rest. rw (
          sb.read_uint8_lem (parse_bits 0 bools % 256) rest,
          same,
          ← e,
          read_bits-parse_bits 0 bools (omega arith),
        ),
      )

  -- Up to eight flags of a class are written as a single byte, and are read back in their order.
  pub bitmask1_byte-ReadBack :
      (n : ℕ) (bools : List Bool) (rest : List ℕ)
      → n ≤ 8
      → length bools ≡ n
      → SizedReadBack (λ size. size ≡ 1) (bitmask1_byte n) bools rest
  unfolding bitmask1_byte-RoundTrip
  bitmask1_byte-ReadBack n bools rest h e =
      let (bs, w, bytes, r) = bitmask1_byte-RoundTrip n h bools e in (bs, w, bytes, refl, r rest)
