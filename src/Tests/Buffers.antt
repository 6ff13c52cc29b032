-- ===== src/Tests/Buffers.antt =====
-- packages/jellyfish-buffer: runs, and the theorems at concrete inputs.
use jellyfishsdk.Prelude.{some, ℕ, ◌≡◌, ◌<◌, ◌≤◌, refl, arith, [], ◌∷◌, length, true, false}
use jellyfishsdk.Prelude.{All, ok, err, unsafe_integer, leb, if◌then◌else◌, ◌>>=◌}
use jellyfishsdk.Platform.{IsByte}
use jellyfishsdk.Buffer.Codec.{ReadBack, SizedReadBack}
use jellyfishsdk.Buffer.Words.{uint8, uint8-RoundTrip}
use jellyfishsdk.Buffer.CompactSize.{write_tagged}
use jellyfishsdk.Buffer.CompactSize.{
  max_safe_integer, compact_size, read_compact_size, compact_bytes,
}
use jellyfishsdk.Buffer.CompactSize.{write_compact_size, byte_length, write_compact_size_lem}
use jellyfishsdk.Buffer.CompactSize.{
  byte_length_lem, read_compact_size-bounds, read_tagged, read_words,
}
use jellyfishsdk.Buffer.CompactSize.{compact_size-ReadBack}
use jellyfishsdk.Buffer.VarInt.{var_int, write_var_int, write_down, var_int_digits, read_var_int}
use jellyfishsdk.Buffer.VarInt.{read_var_int_loop}
use jellyfishsdk.Buffer.VarInt.Inverse.{var_int-ReadBack}
use jellyfishsdk.Buffer.Amounts.{satoshi_as_big_number, max_price_as_big_number}
use jellyfishsdk.Buffer.Amounts.{satoshi_as_big_number-ReadBack, max_price_as_big_number-ReadBack}
use jellyfishsdk.Buffer.BitMask.{bitmask1_byte, bitmask1_byte-ReadBack}
use jellyfishsdk.Buffer.Fields.{compact_size_array, compact_size_optional_hex}
use jellyfishsdk.Buffer.Fields.Laws.{compact_size_array-ReadBack}
use jellyfishsdk.Buffer.Fields.Laws.{compact_size_optional_hex-ReadBack}
use jellyfishsdk.Prelude.{inl, inr, List}
use jellyfishsdk.Buffer.Utf8.{encode, encode_char, decode, between, step, start, continue}
use jellyfishsdk.Buffer.Texts.{IsString, compact_size_utf8_be, compact_size_utf8_be-ReadBack}
use jellyfishsdk.Tests.Node.{node_buffer, scaled}

-- The values in the comment of VarInt.ts.
var_int_256 : write_var_int 256 ≡ ok (0x81 ∷ 0x00 ∷ [])
unfolding write_var_int write_down var_int_digits
var_int_256 = refl

var_int_2_32 : write_var_int 0x1_0000_0000 ≡ ok (0x8e ∷ 0xfe ∷ 0xfe ∷ 0xff ∷ 0x00 ∷ [])
unfolding write_var_int write_down var_int_digits
var_int_2_32 = refl

var_int_65535 : read_var_int (0x82 ∷ 0xfe ∷ 0x7f ∷ []) ≡ ok (65535, [])
unfolding read_var_int read_var_int_loop
var_int_65535 = refl

compact_size_515 : write_compact_size 515 ≡ ok (0xfd ∷ 0x03 ∷ 0x02 ∷ [])
unfolding write_compact_size write_tagged
compact_size_515 = refl

-- A number in more bytes than it needs is accepted.
compact_size_padded : read_compact_size (0xfd ∷ 0x05 ∷ 0x00 ∷ []) ≡ ok (5, [])
unfolding read_compact_size read_tagged
compact_size_padded = refl

compact_size_unsafe :
    read_compact_size (0xff ∷ 0 ∷ 0 ∷ 0 ∷ 0 ∷ 0 ∷ 0 ∷ 0x20 ∷ 0 ∷ []) ≡ err unsafe_integer
unfolding read_compact_size read_tagged read_words
compact_size_unsafe = refl

compact_size-ReadBack_example : SizedReadBack (λ size. size ≡ 5) compact_size 70000 (9 ∷ [])
compact_size-ReadBack_example = compact_size-ReadBack 70000 (9 ∷ []) (omega arith)

write_compact_size_lem_example :
    write_compact_size 515
    ≡ (if leb 515 max_safe_integer then ok (compact_bytes 515) else err unsafe_integer)
write_compact_size_lem_example = write_compact_size_lem 515

byte_length_lem_example : byte_length 515 ≡ (write_compact_size 515 >>= λ bs. ok (length bs))
byte_length_lem_example = byte_length_lem 515

read_compact_size-bounds_example : (5 ≤ max_safe_integer) × All IsByte []
read_compact_size-bounds_example =
    read_compact_size-bounds (0xfd ∷ 0x05 ∷ 0x00 ∷ []) [] 5 (omega arith) compact_size_padded

var_int-ReadBack_example : SizedReadBack (λ size. size ≤ 8) var_int 16512 (1 ∷ [])
var_int-ReadBack_example = var_int-ReadBack 16512 (1 ∷ []) (omega arith)

-- 1.5 coins.
satoshi_as_big_number-ReadBack_example : ReadBack {A = ℕ} satoshi_as_big_number 150000000 []
satoshi_as_big_number-ReadBack_example =
    satoshi_as_big_number-ReadBack ℕ 150000000 [] (150000000, refl, omega arith)

max_price_as_big_number-ReadBack_example : ReadBack {A = ℕ} max_price_as_big_number 250000001 []
max_price_as_big_number-ReadBack_example =
    max_price_as_big_number-ReadBack ℕ 250000001 [] (250000001, refl, omega arith)

bitmask1_byte-ReadBack_example :
    SizedReadBack (λ size. size ≡ 1) (bitmask1_byte 3) (true ∷ false ∷ true ∷ []) []
bitmask1_byte-ReadBack_example =
    bitmask1_byte-ReadBack 3 (true ∷ false ∷ true ∷ []) [] (omega arith) refl

compact_size_array-ReadBack_example : ReadBack (compact_size_array uint8) (7 ∷ 8 ∷ []) (1 ∷ [])
compact_size_array-ReadBack_example =
    compact_size_array-ReadBack uint8 (λ v. v < 256) (7 ∷ 8 ∷ []) (1 ∷ []) uint8-RoundTrip
      (omega arith)

compact_size_optional_hex-ReadBack_example :
    ReadBack compact_size_optional_hex (some (b'f' ∷ b'0' ∷ [])) (3 ∷ [])
compact_size_optional_hex-ReadBack_example =
    compact_size_optional_hex-ReadBack (some (b'f' ∷ b'0' ∷ [])) (3 ∷ []) (omega arith)

-- "é€", and a character outside of the first plane.
abbrev text : List ℕ
text = 0xe9 ∷ 0x20ac ∷ 0x1f600 ∷ []

text_bytes : encode text ≡ 0xc3 ∷ 0xa9 ∷ 0xe2 ∷ 0x82 ∷ 0xac ∷ 0xf0 ∷ 0x9f ∷ 0x98 ∷ 0x80 ∷ []
unfolding encode encode_char
text_bytes = refl

-- A truncated character is replaced, and a byte that cannot continue it starts anew.
text_broken : decode between (0xe2 ∷ 0x82 ∷ 0x41 ∷ 0xc3 ∷ []) ≡ 0xfffd ∷ 0x41 ∷ 0xfffd ∷ []
unfolding decode step start continue
text_broken = refl

text-IsString : IsString text
text-IsString = (
  (inl (omega arith), (inl (omega arith), (inr (omega arith, omega arith), tt))),
  rw text_bytes (omega arith),
)

compact_size_utf8_be-ReadBack_example : ReadBack compact_size_utf8_be text (7 ∷ [])
compact_size_utf8_be-ReadBack_example = compact_size_utf8_be-ReadBack text (7 ∷ []) text-IsString
