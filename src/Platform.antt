-- ===== src/Platform.antt =====
-- What the packages take from code outside this repository.
-- `SmartBuffer` is the interface of the npm package smart-buffer, and `BigNumber` that of
-- bignumber.js, each with the documented behaviour that the packages rely on.
use jellyfishsdk.Prelude.{ℕ, ◌+◌, ◌*◌, ◌/◌, ◌%◌, ◌^◌, ◌-◌, ◌≤◌, ◌<◌, ◌≡◌, Bool, List, [], ◌∷◌}
use jellyfishsdk.Prelude.{length, take, drop, ltb, ◌==◌}
use jellyfishsdk.Prelude.{Result, ok, err, out_of_range, end_of_buffer}

-- A byte of a buffer.
abbrev pub IsByte : ℕ → Type 0
IsByte b = b < 256

-- A buffer that is read stands for the bytes that are still unread: a read returns its value and
-- what is left. A write returns the bytes that it appends.
pub record SmartBuffer : Type 0 where
  pub remaining : List ℕ → ℕ
  pub read_uint8 : List ℕ → Result (ℕ × List ℕ)
  pub read_uint16_le : List ℕ → Result (ℕ × List ℕ)
  pub read_uint32_le : List ℕ → Result (ℕ × List ℕ)
  pub read_uint32_be : List ℕ → Result (ℕ × List ℕ)
  pub read_buffer : ℕ → List ℕ → List ℕ × List ℕ
  pub write_uint8 : ℕ → Result (List ℕ)
  pub write_uint16_le : ℕ → Result (List ℕ)
  pub write_uint32_le : ℕ → Result (List ℕ)
  pub write_uint32_be : ℕ → Result (List ℕ)
  -- `remaining()` counts the unread bytes.
  pub remaining_lem : (bs : List ℕ) → remaining bs ≡ length bs
  -- Fixed-width reads take the bytes in the named order; with too few bytes they throw.
  pub read_uint8_lem : (a : ℕ) (rest : List ℕ) → read_uint8 (a ∷ rest) ≡ ok (a, rest)
  pub read_uint8_end : read_uint8 [] ≡ err end_of_buffer
  pub read_uint16_le_lem :
      (a b : ℕ) (rest : List ℕ) → read_uint16_le (a ∷ b ∷ rest) ≡ ok (a + 256 * b, rest)
  pub read_uint32_le_lem :
      (a b c d : ℕ) (rest : List ℕ)
      → read_uint32_le (a ∷ b ∷ c ∷ d ∷ rest) ≡ ok (a + 256 * b + 65536 * c + 16777216 * d, rest)
  pub read_uint32_be_lem :
      (a b c d : ℕ) (rest : List ℕ)
      → read_uint32_be (a ∷ b ∷ c ∷ d ∷ rest) ≡ ok (16777216 * a + 65536 * b + 256 * c + d, rest)
  pub read_uint16_le_end : (bs : List ℕ) → length bs < 2 → read_uint16_le bs ≡ err end_of_buffer
  pub read_uint32_le_end : (bs : List ℕ) → length bs < 4 → read_uint32_le bs ≡ err end_of_buffer
  pub read_uint32_be_end : (bs : List ℕ) → length bs < 4 → read_uint32_be bs ≡ err end_of_buffer
  -- `readBuffer(n)` takes n bytes, or all that are left where there are fewer.
  pub read_buffer_lem : (n : ℕ) (bs : List ℕ) → read_buffer n bs ≡ (take n bs, drop n bs)
  -- Fixed-width writes of a number in range; a number out of range throws.
  pub write_uint8_lem : (v : ℕ) → v < 256 → write_uint8 v ≡ ok (v ∷ [])
  pub write_uint8_range : (v : ℕ) → 256 ≤ v → write_uint8 v ≡ err out_of_range
  pub write_uint16_le_lem : (v : ℕ) → v < 65536 → write_uint16_le v ≡ ok (v % 256 ∷ v / 256 ∷ [])
  pub write_uint16_le_range : (v : ℕ) → 65536 ≤ v → write_uint16_le v ≡ err out_of_range
  pub write_uint32_le_lem :
      (v : ℕ)
      → v < 2 ^ 32
      → write_uint32_le v ≡ ok (v % 256 ∷ v / 256 % 256 ∷ v / 65536 % 256 ∷ v / 16777216 ∷ [])
  pub write_uint32_le_range : (v : ℕ) → 2 ^ 32 ≤ v → write_uint32_le v ≡ err out_of_range
  pub write_uint32_be_lem :
      (v : ℕ)
      → v < 2 ^ 32
      → write_uint32_be v ≡ ok (v / 16777216 ∷ v / 65536 % 256 ∷ v / 256 % 256 ∷ v % 256 ∷ [])

-- `new BigNumber('100000000')`
abbrev pub coin : ℕ
coin = 100000000

-- Decimal numbers. `of_number n` is `new BigNumber(n)`, and `dividedBy(coin)` of a whole number of
-- satoshis is the amount with 8 decimals that it stands for.
pub record BigNumber (N : Type 0) : Type 0 where
  pub of_number : ℕ → N
  pub to_number : N → ℕ
  pub plus : N → N → N
  pub minus : N → N → N
  pub multiplied_by : N → N → N
  pub divided_by : N → N → N
  pub mod_by : N → N → N
  pub eq : N → N → Bool
  pub is_greater_than : N → N → Bool
  pub decimal_places : N → ℕ
  pub is_zero : N → Bool
  -- `integerValue(BigNumber.ROUND_DOWN)`
  pub integer_value : N → N
  -- On whole numbers the operations are those of arithmetic.
  pub to_number_of : (n : ℕ) → n < 2 ^ 53 → to_number (of_number n) ≡ n
  pub plus_of : (m n : ℕ) → plus (of_number m) (of_number n) ≡ of_number (m + n)
  pub minus_of : (m n : ℕ) → n ≤ m → minus (of_number m) (of_number n) ≡ of_number (m - n)
  pub multiplied_by_of : (m n : ℕ) → multiplied_by (of_number m) (of_number n) ≡ of_number (m * n)
  pub divided_by_of : (m n : ℕ) → 0 < n → divided_by (of_number (m * n)) (of_number n) ≡ of_number m
  pub mod_by_of : (m n : ℕ) → 0 < n → mod_by (of_number m) (of_number n) ≡ of_number (m % n)
  pub eq_of : (m n : ℕ) → eq (of_number m) (of_number n) ≡ (m == n)
  pub is_greater_than_of : (m n : ℕ) → is_greater_than (of_number m) (of_number n) ≡ ltb n m
  pub is_zero_of : (m : ℕ) → is_zero (of_number m) ≡ (m == 0)
  -- Division by 10^5 is exact: at most 5 of the 20 decimal places are used.
  pub integer_value_of :
      (m : ℕ) → integer_value (divided_by (of_number m) (of_number 100000)) ≡ of_number (m / 100000)
  -- Division by 10^8 is exact: at most 8 of the 20 decimal places are used.
  pub coins_exact :
      (n : ℕ)
      → multiplied_by (divided_by (of_number n) (of_number coin)) (of_number coin) ≡ of_number n
  pub coins_plus :
      (m n : ℕ)
      → plus (of_number m) (divided_by (of_number n) (of_number coin))
        ≡ divided_by (of_number (m * coin + n)) (of_number coin)
  pub coins_decimals : (n : ℕ) → decimal_places (divided_by (of_number n) (of_number coin)) ≤ 8
  pub coins_eq :
      (m n : ℕ) → eq (divided_by (of_number m) (of_number coin)) (of_number n) ≡ (m == n * coin)
