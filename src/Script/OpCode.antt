-- ===== src/Script/OpCode.antt =====
-- packages/jellyfish-transaction/src/script: opcode.ts, data.ts, _buffer.ts, dftx/index.ts and
-- OP_CODES of mapping.ts. A script is a list of words, and its bytes are theirs in turn. The data
-- of a DeFi transaction is read and written by `CDfTx`, the parameter `dftx` here.
pub mod Laws
pub mod RoundTrip
pub mod Rounds
use jellyfishsdk.Prelude.{ℕ, zero, suc, ◌+◌, ◌*◌, ◌/◌, ◌<◌, ◌≤◌, ◌≡◌, refl, arith}
use jellyfishsdk.Prelude.{List, [], ◌∷◌, ◌++◌, length, All, ltb, leb, ◌==◌, if◌then◌else◌}
use jellyfishsdk.Prelude.{Bool, true, false, ◌&&◌, not}
use jellyfishsdk.Prelude.{Result, ok, err, ◌>>=◌, ◌>>◌, throw_if, out_of_range, out_of_fuel}
use jellyfishsdk.Platform.{IsByte, SmartBuffer}
use jellyfishsdk.Buffer.Codec.{Codec, write_each}
use jellyfishsdk.Buffer.CompactSize.{read_compact_size, write_compact_size}
use jellyfishsdk.Buffer.Hex.{Text, to_hex, from_hex}
use jellyfishsdk.Script.Codes.{StaticCode, control, code, num_as_op_code}
use jellyfishsdk.Script.Codes.Control.{op_return}
use jellyfishsdk.Script.PushData.{get_len_op_buffer, read_data}

-- `OPCode`: a `StaticCode`, an `OP_PUSHDATA` with its hex text, or an `OP_DEFI_TX`.
pub data OpCode (D : Type 0) : Type 0 where
  static : StaticCode → OpCode D
  push_data : Text → OpCode D
  defi_tx : D → OpCode D

starts_with : Text → Text → Bool
starts_with [] t = true
starts_with (c ∷ cs) [] = false
starts_with (c ∷ cs) (d ∷ ds) = (c == d) && starts_with cs ds

-- `DEFI_SIGNATURE`: '44665478', the hex of "DfTx".
abbrev pub defi_signature : Text
defi_signature = b'4' ∷ b'4' ∷ b'6' ∷ b'6' ∷ b'5' ∷ b'4' ∷ b'7' ∷ b'8' ∷ []

unfoldable pub is_defi_hex : Text → Bool
unfolding starts_with
is_defi_hex hex = leb 10 (length hex) && starts_with defi_signature hex

-- `OP_PUSHDATA.length`: the text is one that `toString('hex')` returned, two digits a byte.
abbrev push_length : Text → ℕ
push_length hex = length hex / 2

module _ {D : Type 0} where
  unfoldable pub is_defi_script : List (OpCode D) → Bool
  is_defi_script (static (control op_return) ∷ push_data hex ∷ rest) = is_defi_hex hex
  is_defi_script stack = false

module _ {D : Type 0} ⦃sb : SmartBuffer⦄ where
  -- `new OP_PUSHDATA(code, buffer)`
  unfoldable pub push_word : ℕ → List ℕ → Result (OpCode D × List ℕ)
  push_word num bs = do (buff, rest) ← read_data num bs; ok (push_data (to_hex buff), rest)

  unfoldable pub static_word : ℕ → List ℕ → Result (OpCode D × List ℕ)
  static_word num bs = do c ← num_as_op_code num; ok (static c, bs)

  -- `toOpCode`
  unfoldable pub to_op_code : List ℕ → Result (OpCode D × List ℕ)
  to_op_code bs = do
    (num, rest) ← sb.read_uint8 bs
    if not (num == 0x00) && leb num 0x4e then push_word num rest else static_word num rest

  -- `while (buffer.remaining() > 0)`. Every word takes a byte: as many rounds as bytes are enough,
  -- and running out of them is no error of the source.
  unfoldable pub read_op_codes : ℕ → List ℕ → Result (List (OpCode D))
  read_op_codes zero bs = if ltb 0 (sb.remaining bs) then err out_of_fuel else ok []
  read_op_codes (suc fuel) bs = elim (ltb 0 (sb.remaining bs)) [
    | true ↦ do (op, rest) ← to_op_code bs; ops ← read_op_codes fuel rest; ok (op ∷ ops)
    | false ↦ ok []
  ]

module _ {D : Type 0} ⦃sb : SmartBuffer⦄ (dftx : Codec D) where
  -- `asBuffer` of the three classes.
  unfoldable pub as_buffer : OpCode D → Result (List ℕ)
  as_buffer (static c) = throw_if (ltb 0xff (code c)) out_of_range >> ok (code c ∷ [])
  as_buffer (push_data hex) = do
    size ← get_len_op_buffer (push_length hex)
    ok (size ++ from_hex hex)
  as_buffer (defi_tx d) = do
    body ← dftx.to_buffer d
    size ← get_len_op_buffer (length body)
    ok (size ++ body)

  abbrev pub op_code : Codec (OpCode D)
  op_code = record { from_buffer = to_op_code; to_buffer = as_buffer }

  -- The data of the second word as a DeFi transaction, between the first word and the others.
  -- What `CDfTx` leaves unread of the data is dropped.
  remap_pushed : List (OpCode D) → Result (List (OpCode D))
  remap_pushed (op ∷ push_data hex ∷ rest) = do
    (d, unread) ← dftx.from_buffer (from_hex hex)
    ok (static (control op_return) ∷ defi_tx d ∷ rest)
  remap_pushed stack = ok stack

  unfoldable pub remap_defi_script : List (OpCode D) → Result (List (OpCode D))
  unfolding remap_pushed
  remap_defi_script stack = if not (is_defi_script stack) then ok stack else remap_pushed stack

  -- `toOPCodes`
  unfoldable pub to_op_codes : List ℕ → Result (List (OpCode D))
  to_op_codes bs = do stack ← read_op_codes (length bs) bs; remap_defi_script stack

  -- `OP_CODES.fromBuffer`
  unfoldable pub read_script : List ℕ → Result (List (OpCode D) × List ℕ)
  read_script bs = do
    (n, rest) ← read_compact_size bs
    let (front, rest') = sb.read_buffer n rest
    let parsed = (do stack ← to_op_codes front; ok (stack, rest'))
    if n == 0 then ok ([], rest) else parsed

  -- `OP_CODES.toBuffer`
  unfoldable pub write_script : List (OpCode D) → Result (List ℕ)
  write_script stack = do
    buffs ← write_each op_code stack
    size ← write_compact_size (length buffs)
    ok (size ++ buffs)

  -- `CScript`
  abbrev pub script : Codec (List (OpCode D))
  script = record { from_buffer = read_script; to_buffer = write_script }
