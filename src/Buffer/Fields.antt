-- ===== src/Buffer/Fields.antt =====
-- packages/jellyfish-buffer/src/Composer.ts: the composers of hex strings, flags and sized arrays.
pub mod Laws
use jellyfishsdk.Prelude.{ℕ, zero, suc, ◌+◌, ◌*◌, ◌/◌, ◌<◌, ◌≡◌, not}
use jellyfishsdk.Prelude.{List, [], ◌∷◌, ◌++◌, length, Bool, if◌then◌else◌, ◌==◌, ltb}
use jellyfishsdk.Prelude.{Option, none, some}
use jellyfishsdk.Prelude.{Result, ok, err, ◌>>=◌, ◌>>◌, throw_if, invalid_length, empty_hex}
use jellyfishsdk.Platform.{SmartBuffer}
use jellyfishsdk.Buffer.Codec.{Codec, read_times, write_each}
use jellyfishsdk.Buffer.CompactSize.{read_compact_size, write_compact_size}
use jellyfishsdk.Buffer.Hex.{Text, to_hex, from_hex}
use mathlib.Core.List.{reverse}

module _ ⦃sb : SmartBuffer⦄ where
  -- `writeBuffer` appends the bytes that it is given.
  unfoldable pub write_hex : ℕ → Text → Result (List ℕ)
  write_hex n hex = throw_if (not (length hex == n * 2)) invalid_length >> ok (from_hex hex)

  abbrev pub hex : ℕ → Codec Text
  hex n = record {
    from_buffer = λ bs. let (buff, rest) = sb.read_buffer n bs in ok (to_hex buff, rest);
    to_buffer = write_hex n;
  }

  -- Big-endian text, little-endian bytes.
  unfoldable pub write_hex_be : ℕ → Text → Result (List ℕ)
  write_hex_be n hex =
      throw_if (not (length hex == n * 2)) invalid_length >> ok (reverse (from_hex hex))

  abbrev pub hex_be_buffer_le : ℕ → Codec Text
  hex_be_buffer_le n = record {
    from_buffer = λ bs. let (buff, rest) = sb.read_buffer n bs in ok (to_hex (reverse buff), rest);
    to_buffer = write_hex_be n;
  }

  -- A short read gives no bytes at the end of the buffer, and the field stays undefined.
  abbrev pub optional_text : List ℕ → Option Text
  optional_text buff = if ltb 0 (length buff) then some (to_hex buff) else none

  unfoldable pub write_optional_hex : ℕ → Option Text → Result (List ℕ)
  unfolding write_hex
  write_optional_hex n none = ok []
  write_optional_hex n (some hex) = write_hex n hex

  abbrev pub optional_hex : ℕ → Codec (Option Text)
  optional_hex n = record {
    from_buffer = λ bs. let (buff, rest) = sb.read_buffer n bs in ok (optional_text buff, rest);
    to_buffer = write_optional_hex n;
  }

  -- The bytes of a hex text behind their number.
  unfoldable pub write_sized : Text → Result (List ℕ)
  write_sized hex = do size ← write_compact_size (length (from_hex hex)); ok (size ++ from_hex hex)

  unfoldable pub read_optional_sized : List ℕ → Result (Option Text × List ℕ)
  read_optional_sized bs = do
    (n, rest) ← read_compact_size bs
    let (buff, rest') = sb.read_buffer n rest
    ok (if ltb 0 n then (some (to_hex buff), rest') else (none, rest))

  unfoldable pub write_optional_sized : Option Text → Result (List ℕ)
  unfolding write_sized
  write_optional_sized none = write_compact_size 0x00
  write_optional_sized (some []) = err empty_hex
  write_optional_sized (some (c ∷ cs)) = write_sized (c ∷ cs)

  abbrev pub compact_size_optional_hex : Codec (Option Text)
  compact_size_optional_hex = record {
    from_buffer = read_optional_sized;
    to_buffer = write_optional_sized;
  }

  unfoldable pub read_sized : List ℕ → Result (Text × List ℕ)
  read_sized bs = do
    (n, rest) ← read_compact_size bs
    let (buff, rest') = sb.read_buffer n rest
    ok (to_hex buff, rest')

  abbrev pub compact_size_hex : Codec Text
  compact_size_hex = record { from_buffer = read_sized; to_buffer = write_sized }

  abbrev pub ubool8 : Codec Bool
  ubool8 = record {
    from_buffer = λ bs. do
      (v, rest) ← sb.read_uint8 bs
      ok (v == 1, rest);
    to_buffer = λ b. ok ((if b then 1 else 0) ∷ []);
  }

  -- A signed number is 1 exactly when its four bytes are those of 1.
  abbrev pub ubool32 : Codec Bool
  ubool32 = record {
    from_buffer = λ bs. do
      (v, rest) ← sb.read_uint32_be bs
      ok (v == 1, rest);
    to_buffer = λ b. ok (0 ∷ 0 ∷ 0 ∷ (if b then 1 else 0) ∷ []);
  }

module _ {A : Type 0} ⦃sb : SmartBuffer⦄ (c : Codec A) where
  unfoldable pub read_array : List ℕ → Result (List A × List ℕ)
  read_array bs = do (n, rest) ← read_compact_size bs; read_times c n rest

  unfoldable pub write_array : List A → Result (List ℕ)
  write_array array = do
    size ← write_compact_size (length array)
    body ← write_each c array
    ok (size ++ body)

  abbrev pub compact_size_array : Codec (List A)
  compact_size_array = record { from_buffer = read_array; to_buffer = write_array }
