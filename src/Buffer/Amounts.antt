-- ===== src/Buffer/Amounts.antt =====
-- packages/jellyfish-buffer/src/BigNumber.ts, and the composers of Composer.ts over it:
-- `bigNumberUInt64`, `satoshiAsBigNumber` and `maxPriceAsBigNumber`.
use jellyfishsdk.Prelude.{ℕ, ◌+◌, ◌-◌, ◌*◌, ◌/◌, ◌%◌, ◌^◌, ◌<◌, ◌≡◌, arith, ap, sym, ◌∙◌}
use jellyfishsdk.Prelude.{
  List, ◌++◌, append_assoc, All, All-append, ltb, ◌==◌, le→ltb, if◌then◌else◌, ◌&&◌,
}
use jellyfishsdk.Prelude.{==→eq, Bool-cases, inl, inr, false, Result, ok, ◌>>=◌, ◌>>◌, throw_if}
use jellyfishsdk.Prelude.{out_of_range, too_many_decimals}
use jellyfishsdk.Platform.{IsByte, SmartBuffer, BigNumber, coin}
use jellyfishsdk.Buffer.Codec.{
  Codec, RoundTrip, record_of, mapped-RoundTrip, ReadBack, RoundTrip-ReadBack,
}
use jellyfishsdk.Buffer.Words.{bytes32, read-bytes32}

-- `MAX_INT64`
abbrev pub max_int64 : ℕ
max_int64 = 9223372036854775807

module _ {N : Type 0} ⦃sb : SmartBuffer⦄ ⦃bn : BigNumber N⦄ where
  unfoldable pub read_big_number_uint64 : List ℕ → Result (N × List ℕ)
  read_big_number_uint64 bs = do
    (second, rest) ← sb.read_uint32_le bs
    (first, rest') ← sb.read_uint32_le rest
    ok (
      bn.plus (bn.multiplied_by (bn.of_number first) (bn.of_number 0x100000000))
          (bn.of_number second),
      rest',
    )

  unfoldable pub write_big_number_uint64 : N → Result (List ℕ)
  write_big_number_uint64 v = do
    throw_if (bn.is_greater_than v (bn.of_number 18446744073709551615)) out_of_range
    let second = bn.mod_by v (bn.of_number 0x100000000)
    let first = bn.divided_by (bn.minus v second) (bn.of_number 0x100000000)
    lo ← sb.write_uint32_le (bn.to_number second)
    hi ← sb.write_uint32_le (bn.to_number first)
    ok (lo ++ hi)

  abbrev pub big_number_uint64 : Codec N
  big_number_uint64 = record {
    from_buffer = read_big_number_uint64;
    to_buffer = write_big_number_uint64;
  }

  abbrev pub satoshi_as_big_number : Codec N
  satoshi_as_big_number =
      record_of (λ v. bn.multiplied_by v (bn.of_number coin))
        (λ v. bn.divided_by v (bn.of_number coin)) big_number_uint64

  unfoldable pub read_max_price : List ℕ → Result (N × List ℕ)
  read_max_price bs = do
    (integer, rest) ← read_big_number_uint64 bs
    (fraction, rest') ← read_big_number_uint64 rest
    let max = bn.of_number max_int64
    let price = bn.plus integer (bn.divided_by fraction (bn.of_number coin))
    ok (if bn.eq integer max && bn.eq fraction max then max else price, rest')

  unfoldable pub write_price : N → N → Result (List ℕ)
  write_price integer fraction = do
    first ← write_big_number_uint64 integer
    last ← write_big_number_uint64 fraction
    ok (first ++ last)

  unfoldable pub write_max_price : N → Result (List ℕ)
  write_max_price max_price = do
    throw_if (ltb 8 (bn.decimal_places max_price)) too_many_decimals
    let max = bn.of_number max_int64
    let n = bn.multiplied_by max_price (bn.of_number coin)
    let fraction = bn.mod_by n (bn.of_number coin)
    let integer = bn.divided_by (bn.minus n fraction) (bn.of_number coin)
    if bn.eq max_price max then write_price max max else write_price integer fraction

  abbrev pub max_price_as_big_number : Codec N
  max_price_as_big_number = record { from_buffer = read_max_price; to_buffer = write_max_price }

module _ {N : Type 0} ⦃bn : BigNumber N⦄ where
  -- n satoshis as an amount with 8 decimals.
  abbrev pub coins : ℕ → N
  coins n = bn.divided_by (bn.of_number n) (bn.of_number coin)

  -- A whole number of 64 bits.
  abbrev pub IsUint64 : N → Type 0
  IsUint64 v = (n : ℕ) × (v ≡ bn.of_number n) × (n < 2 ^ 64)

  -- An amount of at most 8 decimals whose satoshis fit 64 bits.
  abbrev pub IsAmount : N → Type 0
  IsAmount v = (n : ℕ) × (v ≡ coins n) × (n < 2 ^ 64)

  -- A price of at most 8 decimals whose whole part fits 64 bits.
  abbrev pub IsPrice : N → Type 0
  IsPrice v = (n : ℕ) × (v ≡ coins n) × (n / coin < 2 ^ 64)

module _ (N : Type 0) ⦃sb : SmartBuffer⦄ ⦃bn : BigNumber N⦄ where
  write-of_number :
      (n : ℕ)
      → n < 2 ^ 64
      → write_big_number_uint64 {N = N} (bn.of_number n)
        ≡ ok (bytes32 (n % 2 ^ 32) ++ bytes32 (n / 2 ^ 32))
  unfolding write_big_number_uint64
  write-of_number n h = rw (
    bn.is_greater_than_of n 18446744073709551615,
    le→ltb 18446744073709551615 n (omega arith),
    bn.mod_by_of n (2 ^ 32) (omega arith),
    bn.minus_of n (n % 2 ^ 32) (omega arith),
    high,
    bn.divided_by_of (n / 2 ^ 32) (2 ^ 32) (omega arith),
    bn.to_number_of (n % 2 ^ 32) (omega arith),
    bn.to_number_of (n / 2 ^ 32) (omega arith),
    sb.write_uint32_le_lem (n % 2 ^ 32) (omega arith),
    sb.write_uint32_le_lem (n / 2 ^ 32) (omega arith),
  )
    where
      high : n - n % 2 ^ 32 ≡ n / 2 ^ 32 * 2 ^ 32
      high = omega arith

  read-of_number :
      (n : ℕ) (rest : List ℕ)
      → read_big_number_uint64 {N = N} ((bytes32 (n % 2 ^ 32) ++ bytes32 (n / 2 ^ 32)) ++ rest)
        ≡ ok (bn.of_number n, rest)
  unfolding read_big_number_uint64
  read-of_number n rest =
      rw
        (
          append_assoc (bytes32 (n % 2 ^ 32)) (bytes32 (n / 2 ^ 32)) rest,
          read-bytes32 (n % 2 ^ 32) (bytes32 (n / 2 ^ 32) ++ rest),
          read-bytes32 (n / 2 ^ 32) rest,
          bn.multiplied_by_of (n / 2 ^ 32) (2 ^ 32),
          bn.plus_of (n / 2 ^ 32 * 2 ^ 32) (n % 2 ^ 32),
        )
        (ap (λ k. ok (bn.of_number k, rest)) (omega arith))

  word_bytes : (n : ℕ) → n < 2 ^ 64 → All IsByte (bytes32 (n % 2 ^ 32) ++ bytes32 (n / 2 ^ 32))
  word_bytes n h = omega arith

  pub big_number_uint64-RoundTrip : RoundTrip {A = N} big_number_uint64 IsUint64
  big_number_uint64-RoundTrip v (n, e, h) = (
    bytes32 (n % 2 ^ 32) ++ bytes32 (n / 2 ^ 32),
    rw e (write-of_number n h),
    word_bytes n h,
    λ rest. rw e (read-of_number n rest),
  )

  amount_fits :
      (v : N)
      → IsAmount v
      → IsUint64 (bn.multiplied_by v (bn.of_number coin))
        × (bn.divided_by (bn.multiplied_by v (bn.of_number coin)) (bn.of_number coin) ≡ v)
  amount_fits v (n, e, h) = rw e ((n, bn.coins_exact n, h), rw (bn.coins_exact n))

  pub satoshi_as_big_number-RoundTrip : RoundTrip {A = N} satoshi_as_big_number IsAmount
  satoshi_as_big_number-RoundTrip =
      mapped-RoundTrip _ _ big_number_uint64 IsUint64 IsAmount amount_fits
        big_number_uint64-RoundTrip

  price_bytes : ℕ → ℕ → List ℕ
  price_bytes integer fraction =
      (bytes32 (integer % 2 ^ 32) ++ bytes32 (integer / 2 ^ 32))
      ++ (bytes32 (fraction % 2 ^ 32) ++ bytes32 (fraction / 2 ^ 32))

  write_price_lem :
      (i f : ℕ)
      → i < 2 ^ 64
      → f < 2 ^ 64
      → write_price {N = N} (bn.of_number i) (bn.of_number f) ≡ ok (price_bytes i f)
  unfolding write_price price_bytes
  write_price_lem i f hi hf = rw (write-of_number i hi, write-of_number f hf)

  read_max_price_lem :
      (i f : ℕ) (rest : List ℕ)
      → read_max_price {N = N} (price_bytes i f ++ rest)
        ≡ ok (
          if (i == max_int64) && (f == max_int64)
              then bn.of_number max_int64
              else coins (i * coin + f),
          rest,
        )
  unfolding read_max_price price_bytes
  read_max_price_lem i f rest = rw (
    append_assoc (bytes32 (i % 2 ^ 32) ++ bytes32 (i / 2 ^ 32))
        (bytes32 (f % 2 ^ 32) ++ bytes32 (f / 2 ^ 32)) rest,
    read-of_number i ((bytes32 (f % 2 ^ 32) ++ bytes32 (f / 2 ^ 32)) ++ rest),
    read-of_number f rest,
    bn.eq_of i max_int64,
    bn.eq_of f max_int64,
    bn.coins_plus i f,
  )

  -- What is written for an amount of n satoshis.
  max_price_bytes : ℕ → List ℕ
  max_price_bytes n =
      if n == max_int64 * coin
      then price_bytes max_int64 max_int64
      else price_bytes (n / coin) (n % coin)

  write_max_price_lem :
      (n : ℕ) → n / coin < 2 ^ 64 → write_max_price {N = N} (coins n) ≡ ok (max_price_bytes n)
  unfolding write_max_price max_price_bytes
  write_max_price_lem n h =
      rw
        (
          le→ltb 8 (bn.decimal_places (coins n)) (bn.coins_decimals n),
          bn.coins_eq n max_int64,
          bn.coins_exact n,
          bn.mod_by_of n coin (omega arith),
          bn.minus_of n (n % coin) (omega arith),
          whole,
          bn.divided_by_of (n / coin) coin (omega arith),
        )
        (elim (Bool-cases (n == max_int64 * coin)) [
          | inl top ↦ rw top (write_price_lem max_int64 max_int64 (omega arith) (omega arith))
          | inr other ↦ rw other (write_price_lem (n / coin) (n % coin) h (omega arith))
        ])
    where
      whole : n - n % coin ≡ n / coin * coin
      whole = omega arith

  read-max_price_bytes :
      (n : ℕ) (rest : List ℕ)
      → read_max_price {N = N} (max_price_bytes n ++ rest) ≡ ok (coins n, rest)
  unfolding max_price_bytes
  read-max_price_bytes n rest = elim (Bool-cases (n == max_int64 * coin)) [
    | inl top ↦ rw top (
        read_max_price_lem max_int64 max_int64 rest
        ∙ ap (λ v. ok (v, rest))
            (sym (bn.divided_by_of max_int64 coin (omega arith))
              ∙ ap coins (==→eq (max_int64 * coin) n (ground arith))))
    | inr other ↦ rw other (
        read_max_price_lem (n / coin) (n % coin) rest
        ∙ rw (fraction_below n) (ap (λ k. ok (coins k, rest)) (omega arith)))
  ]
    where
      fraction_below : (n : ℕ) → (n / coin == max_int64) && (n % coin == max_int64) ≡ false
      fraction_below n = ground arith

  price_bytes-IsByte : (i f : ℕ) → i < 2 ^ 64 → f < 2 ^ 64 → All IsByte (price_bytes i f)
  unfolding price_bytes
  price_bytes-IsByte i f hi hf =
      All-append IsByte (bytes32 (i % 2 ^ 32) ++ bytes32 (i / 2 ^ 32))
        (bytes32 (f % 2 ^ 32) ++ bytes32 (f / 2 ^ 32)) (word_bytes i hi) (word_bytes f hf)

  max_price_bytes-IsByte : (n : ℕ) → n / coin < 2 ^ 64 → All IsByte (max_price_bytes n)
  unfolding max_price_bytes
  max_price_bytes-IsByte n h = elim (Bool-cases (n == max_int64 * coin)) [
    | inl top ↦ rw top (price_bytes-IsByte max_int64 max_int64 (omega arith) (omega arith))
    | inr other ↦ rw other (price_bytes-IsByte (n / coin) (n % coin) h (omega arith))
  ]

  pub max_price_as_big_number-RoundTrip : RoundTrip {A = N} max_price_as_big_number IsPrice
  max_price_as_big_number-RoundTrip v (n, e, h) = (
    max_price_bytes n,
    rw e (write_max_price_lem n h),
    max_price_bytes-IsByte n h,
    λ rest. rw e (read-max_price_bytes n rest),
  )

  -- An amount of at most 8 decimals whose satoshis fit 64 bits is read back exactly.
  pub satoshi_as_big_number-ReadBack :
      (v : N) (rest : List ℕ) → IsAmount v → ReadBack satoshi_as_big_number v rest
  satoshi_as_big_number-ReadBack =
      RoundTrip-ReadBack satoshi_as_big_number satoshi_as_big_number-RoundTrip

  -- A price of at most 8 decimals whose whole part fits 64 bits is read back exactly, the price
  -- MAX_INT64, which is written twice, included.
  pub max_price_as_big_number-ReadBack :
      (v : N) (rest : List ℕ) → IsPrice v → ReadBack max_price_as_big_number v rest
  max_price_as_big_number-ReadBack =
      RoundTrip-ReadBack max_price_as_big_number max_price_as_big_number-RoundTrip
