-- ===== src/Buffer/VarInt.antt =====
-- packages/jellyfish-buffer/src/VarInt.ts: base-128 digits, the highest first.
-- The integers of bn.js are read as natural numbers.
pub mod Inverse
use jellyfishsdk.Prelude.{ℕ, zero, suc, ◌+◌, ◌-◌, ◌*◌, ◌/◌, ◌%◌}
use jellyfishsdk.Prelude.{List, [], ◌∷◌, ◌++◌, length, ltb, leb, ◌==◌, if◌then◌else◌}
use jellyfishsdk.Prelude.{Result, ok, err, ◌>>=◌, ◌>>◌, throw_if, unsafe_integer, out_of_fuel}
use jellyfishsdk.Platform.{SmartBuffer}
use jellyfishsdk.Buffer.Codec.{Codec}
use jellyfishsdk.Buffer.CompactSize.{max_safe_integer}

abbrev pub validate_max_safe_integer : ℕ → Result (Unit {0})
validate_max_safe_integer n = throw_if (ltb max_safe_integer n) unsafe_integer

-- The first loop of `writeVarInt`: `tmp`, the digit made first at the front. Every round but the
-- first sets the top bit (`len > 0`). A safe integer takes at most 8 rounds.
unfoldable pub var_int_digits : ℕ → ℕ → ℕ → List ℕ
var_int_digits zero top n = []
var_int_digits (suc fuel) top n =
    let rest = var_int_digits fuel 0x80 (n / 128 - 1) in
    if leb n 0x7f then (n % 128 + top) ∷ [] else (n % 128 + top) ∷ rest

abbrev pub rounds : ℕ
rounds = 8

module _ ⦃sb : SmartBuffer⦄ where
  -- The second loop, `do … while (len-- !== 0)`: the digit made last is written first.
  unfoldable pub write_down : List ℕ → Result (List ℕ)
  write_down [] = ok []
  write_down (d ∷ ds) = do later ← write_down ds; byte ← sb.write_uint8 d; ok (later ++ byte)

  unfoldable pub write_var_int : ℕ → Result (List ℕ)
  write_var_int value = do
    validate_max_safe_integer value
    write_down (var_int_digits rounds 0x00 value)

  -- The loop of `readVarInt`. On a byte, `& 0x7f` is `% 128` and `& 0x80` tests the top bit. Each
  -- round takes a byte, so one round more than there are bytes is enough.
  unfoldable pub read_var_int_loop : ℕ → ℕ → List ℕ → Result (ℕ × List ℕ)
  read_var_int_loop zero n bs = err out_of_fuel
  read_var_int_loop (suc fuel) n bs = do
    (buff, rest) ← sb.read_uint8 bs
    let n' = n * 128 + buff % 128
    let more = read_var_int_loop fuel (n' + 1) rest
    if buff / 128 % 2 == 0 then (validate_max_safe_integer n' >> ok (n', rest)) else more

  unfoldable pub read_var_int : List ℕ → Result (ℕ × List ℕ)
  read_var_int bs = read_var_int_loop (suc (length bs)) 0 bs

  -- `ComposableBuffer.varInt`
  abbrev pub var_int : Codec ℕ
  var_int = record { from_buffer = read_var_int; to_buffer = write_var_int }
