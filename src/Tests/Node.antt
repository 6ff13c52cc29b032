-- ===== src/Tests/Node.antt =====
-- A buffer and decimal numbers that behave as the platform's interfaces say.
use jellyfishsdk.Prelude.{ℕ, ◌+◌, ◌-◌, ◌*◌, ◌/◌, ◌%◌, ◌^◌, ◌<◌, ◌≤◌, ◌≡◌, refl, arith}
use jellyfishsdk.Prelude.{List, [], ◌∷◌, length, take, drop, ltb, ◌==◌, if◌then◌else◌}
use jellyfishsdk.Prelude.{Result, ok, err, out_of_range, end_of_buffer}
use jellyfishsdk.Platform.{SmartBuffer, BigNumber, coin}
use native.Mathlib.Nat.{mul-div_cancel}

abbrev read8 : List ℕ → Result (ℕ × List ℕ)
read8 [] = err end_of_buffer
read8 (a ∷ rest) = ok (a, rest)

abbrev read16 : List ℕ → Result (ℕ × List ℕ)
read16 (a ∷ b ∷ rest) = ok (a + 256 * b, rest)
read16 bs = err end_of_buffer

abbrev read32 : List ℕ → Result (ℕ × List ℕ)
read32 (a ∷ b ∷ c ∷ d ∷ rest) = ok (a + 256 * b + 65536 * c + 16777216 * d, rest)
read32 bs = err end_of_buffer

abbrev read32_be : List ℕ → Result (ℕ × List ℕ)
read32_be (a ∷ b ∷ c ∷ d ∷ rest) = ok (16777216 * a + 65536 * b + 256 * c + d, rest)
read32_be bs = err end_of_buffer

abbrev checked : ℕ → ℕ → List ℕ → Result (List ℕ)
checked bound v bs = if ltb v bound then ok bs else err out_of_range

pub read16_short : (bs : List ℕ) → length bs < 2 → read16 bs ≡ err end_of_buffer
read16_short [] h = refl
read16_short (a ∷ []) h = refl
read16_short (a ∷ b ∷ bs) h = absurd (omega arith)

pub read32_short : (bs : List ℕ) → length bs < 4 → read32 bs ≡ err end_of_buffer
read32_short [] h = refl
read32_short (a ∷ []) h = refl
read32_short (a ∷ b ∷ []) h = refl
read32_short (a ∷ b ∷ c ∷ []) h = refl
read32_short (a ∷ b ∷ c ∷ d ∷ bs) h = absurd (omega arith)

pub read32_be_short : (bs : List ℕ) → length bs < 4 → read32_be bs ≡ err end_of_buffer
read32_be_short [] h = refl
read32_be_short (a ∷ []) h = refl
read32_be_short (a ∷ b ∷ []) h = refl
read32_be_short (a ∷ b ∷ c ∷ []) h = refl
read32_be_short (a ∷ b ∷ c ∷ d ∷ bs) h = absurd (omega arith)

pub checked_in : (bound v : ℕ) (bs : List ℕ) → v < bound → checked bound v bs ≡ ok bs
checked_in bound v bs h = ground arith

pub checked_out : (bound v : ℕ) (bs : List ℕ) → bound ≤ v → checked bound v bs ≡ err out_of_range
checked_out bound v bs h = ground arith

abbrev word : ℕ → List ℕ
word v = v % 256 ∷ v / 256 % 256 ∷ v / 65536 % 256 ∷ v / 16777216 ∷ []

abbrev word_be : ℕ → List ℕ
word_be v = v / 16777216 ∷ v / 65536 % 256 ∷ v / 256 % 256 ∷ v % 256 ∷ []

instance abbrev pub node_buffer : SmartBuffer
node_buffer = record {
  remaining = length;
  read_uint8 = read8;
  read_uint16_le = read16;
  read_uint32_le = read32;
  read_uint32_be = read32_be;
  read_buffer = λ n bs. (take n bs, drop n bs);
  write_uint8 = λ v. checked 256 v (v ∷ []);
  write_uint16_le = λ v. checked 65536 v (v % 256 ∷ v / 256 ∷ []);
  write_uint32_le = λ v. checked (2 ^ 32) v (word v);
  write_uint32_be = λ v. checked (2 ^ 32) v (word_be v);
  remaining_lem = λ bs. refl;
  read_uint8_lem = λ a rest. refl;
  read_uint8_end = refl;
  read_uint16_le_lem = λ a b rest. refl;
  read_uint32_le_lem = λ a b c d rest. refl;
  read_uint32_be_lem = λ a b c d rest. refl;
  read_uint16_le_end = read16_short;
  read_uint32_le_end = read32_short;
  read_uint32_be_end = read32_be_short;
  read_buffer_lem = λ n bs. refl;
  write_uint8_lem = λ v h. checked_in 256 v (v ∷ []) h;
  write_uint8_range = λ v h. checked_out 256 v (v ∷ []) h;
  write_uint16_le_lem = λ v h. checked_in 65536 v (v % 256 ∷ v / 256 ∷ []) h;
  write_uint16_le_range = λ v h. checked_out 65536 v (v % 256 ∷ v / 256 ∷ []) h;
  write_uint32_le_lem = λ v h. checked_in (2 ^ 32) v (word v) h;
  write_uint32_le_range = λ v h. checked_out (2 ^ 32) v (word v) h;
  write_uint32_be_lem = λ v h. checked_in (2 ^ 32) v (word_be v) h;
}

-- A decimal is its number of units of 10^-8. The second operand of a product, a quotient or a
-- remainder is whole wherever the packages use one.
pub whole_product : (m n : ℕ) → m * coin * (n * coin / coin) ≡ m * n * coin
whole_product m n = let e : n * coin / coin ≡ n = omega arith in rw e (omega arith)

pub whole_quotient : (m n : ℕ) → 0 < n → m * n * coin / (n * coin / coin) ≡ m * coin
whole_quotient m n h =
    let e : n * coin / coin ≡ n = omega arith in
    let f : m * n * coin ≡ m * coin * n = omega arith in rw (e, f) (mul-div_cancel (m * coin) h)

pub whole_remainder : (m n : ℕ) → (m * coin / coin) % (n * coin / coin) * coin ≡ m % n * coin
whole_remainder m n =
    let e : m * coin / coin ≡ m = omega arith in
    let f : n * coin / coin ≡ n = omega arith in rw (e, f)

pub scaled_eq : (m n : ℕ) → (m * coin == n * coin) ≡ (m == n)
scaled_eq m n = ground arith

pub scaled_lt : (m n : ℕ) → ltb (n * coin) (m * coin) ≡ ltb n m
scaled_lt m n = ground arith

pub scaled_zero : (m : ℕ) → (m * coin == 0) ≡ (m == 0)
scaled_zero m = ground arith

pub scaled_integer : (m : ℕ) → m * coin / (100000 * coin / coin) / coin * coin ≡ m / 100000 * coin
scaled_integer m = omega arith

abbrev places : ℕ → ℕ
places a = if a % coin == 0 then 0 else 8

pub places-le : (a : ℕ) → places a ≤ 8
places-le a = ground arith

pub coins_scaled : (n : ℕ) → n * coin / (coin * coin / coin) ≡ n
coins_scaled n = omega arith

instance abbrev pub scaled : BigNumber ℕ
scaled = record {
  of_number = λ n. n * coin;
  to_number = λ a. a / coin;
  plus = λ a b. a + b;
  minus = λ a b. a - b;
  multiplied_by = λ a b. a * (b / coin);
  divided_by = λ a b. a / (b / coin);
  mod_by = λ a b. (a / coin) % (b / coin) * coin;
  eq = λ a b. a == b;
  is_greater_than = λ a b. ltb b a;
  decimal_places = places;
  is_zero = λ a. a == 0;
  integer_value = λ a. a / coin * coin;
  to_number_of = λ n h. omega arith;
  plus_of = λ m n. omega arith;
  minus_of = λ m n h. omega arith;
  multiplied_by_of = whole_product;
  divided_by_of = whole_quotient;
  mod_by_of = λ m n h. whole_remainder m n;
  eq_of = scaled_eq;
  is_greater_than_of = scaled_lt;
  is_zero_of = λ m. scaled_zero m;
  integer_value_of = λ m. scaled_integer m;
  coins_exact = λ n. omega arith;
  coins_plus = λ m n. omega arith;
  coins_decimals = λ n. places-le (n * coin / (coin * coin / coin));
  coins_eq = λ m n. rw (coins_scaled m);
}
