-- ===== src/Tests/Scripts.antt =====
-- packages/jellyfish-transaction/src/script: runs, and the theorems at concrete inputs.
use jellyfishsdk.Prelude.{
  ℕ, ◌≡◌, ◌≤◌, refl, arith, List, [], ◌∷◌, ◌++◌, take, drop, length, inl, ok, err, Result, ap, sym,
  ◌∙◌, subst, out_of_fuel,
}
use jellyfishsdk.Buffer.Codec.{Codec, ReadBack, write_each}
use jellyfishsdk.Buffer.Hex.{Text, to_hex, from_hex, hex_digit}
use jellyfishsdk.Buffer.CompactSize.{max_safe_integer}
use jellyfishsdk.Script.PushData.{get_len_op_buffer}
use jellyfishsdk.Script.Codes.{
  StaticCode, stack, crypto, bitwise, control, constant, num_as_op_code, find_code, hex_mapping,
}
use jellyfishsdk.Script.Codes.{code}
use jellyfishsdk.Script.Codes.Constants.{op_0}
use jellyfishsdk.Script.Codes.Control.{op_return}
use jellyfishsdk.Script.Codes.Crypto.{op_hash160, op_checksig}
use jellyfishsdk.Script.Codes.Bitwise.{op_equalverify}
use jellyfishsdk.Script.Codes.Stack.{op_dup}
use jellyfishsdk.Script.Codes.Laws.{code-num_as_op_code}
use jellyfishsdk.Script.OpCode.{
  OpCode, static, push_data, defi_tx, script, to_op_code, read_op_codes, static_word,
}
use jellyfishsdk.Script.OpCode.{as_buffer, op_code, remap_defi_script, is_defi_script, is_defi_hex}
use jellyfishsdk.Script.OpCode.RoundTrip.{HasSafeLength, script-ReadBack}
use jellyfishsdk.Script.OpCode.Rounds.{read_op_codes-rounds}
use jellyfishsdk.Tests.Node.{node_buffer}

-- A composer that keeps the bytes of a transaction as hex.
abbrev pub raw_dftx : Codec Text
raw_dftx = record { from_buffer = λ bs. ok (to_hex bs, []); to_buffer = λ t. ok (from_hex t) }

abbrev pub hash : Text
hash = b'3' ∷ b'b' ∷ b'd' ∷ b'e' ∷ []

-- The words of a payment to a key's hash.
abbrev pub p2pkh : List (OpCode Text)
p2pkh =
    static (stack op_dup)
    ∷ static (crypto op_hash160)
    ∷ push_data hash
    ∷ static (bitwise op_equalverify)
    ∷ static (crypto op_checksig)
    ∷ []

p2pkh_bytes :
    write_each (op_code raw_dftx) p2pkh ≡ ok (0x76 ∷ 0xa9 ∷ 2 ∷ 0x3b ∷ 0xde ∷ 0x88 ∷ 0xac ∷ [])
unfolding write_each as_buffer code from_hex get_len_op_buffer
p2pkh_bytes = refl

pub p2pkh_safe : HasSafeLength raw_dftx p2pkh
p2pkh_safe bs e =
    subst (λ l. l ≤ max_safe_integer) (ap length_or_zero (sym p2pkh_bytes ∙ e)) (omega arith)
  where
    length_or_zero : Result (List ℕ) → ℕ
    length_or_zero r = elim r [ ok bs ↦ length bs | err e ↦ 0 ]

script-ReadBack_example : ReadBack (script raw_dftx) p2pkh (1 ∷ [])
unfolding is_defi_script
script-ReadBack_example =
    script-ReadBack raw_dftx p2pkh (1 ∷ [])
      (inl ((tt, (tt, ((omega arith, omega arith, omega arith), (tt, (tt, tt))))), refl)) p2pkh_safe

code-num_as_op_code_example : (c : StaticCode) × (num_as_op_code 0xba ≡ ok c) × (code c ≡ 0xba)
code-num_as_op_code_example = code-num_as_op_code 0xba (omega arith)

-- A push of no bytes is written as the byte of OP_0, and read back as OP_0.
push_data_empty :
    (as_buffer raw_dftx (push_data []) ≡ ok (0x00 ∷ []))
    × (to_op_code {D = Text} (0x00 ∷ []) ≡ ok (static (constant op_0), []))
unfolding as_buffer from_hex get_len_op_buffer to_op_code static_word num_as_op_code find_code
    hex_mapping
push_data_empty = (refl, refl)

read_op_codes-rounds_example :
    ¬ (read_op_codes {D = Text} 9 (0x51 ∷ 2 ∷ 1 ∷ 1 ∷ []) ≡ err out_of_fuel)
    × (read_op_codes {D = Text} 9 (0x51 ∷ 2 ∷ 1 ∷ 1 ∷ [])
        ≡ read_op_codes (length {A = ℕ} (0x51 ∷ 2 ∷ 1 ∷ 1 ∷ [])) (0x51 ∷ 2 ∷ 1 ∷ 1 ∷ []))
read_op_codes-rounds_example = read_op_codes-rounds Text 9 (0x51 ∷ 2 ∷ 1 ∷ 1 ∷ []) (omega arith)

-- A composer that takes five bytes and leaves the others.
abbrev five_dftx : Codec Text
five_dftx = record {
  from_buffer = λ bs. ok (to_hex (take 5 bs), drop 5 bs);
  to_buffer = λ t. ok (from_hex t);
}

abbrev signed : Text
signed = b'4' ∷ b'4' ∷ b'6' ∷ b'6' ∷ b'5' ∷ b'4' ∷ b'7' ∷ b'8' ∷ b'0' ∷ b'0' ∷ []

abbrev signed_more : Text
signed_more = signed ++ b'9' ∷ b'9' ∷ []

-- What the composer leaves unread is lost: the two scripts are remapped to one.
remap_unread :
    (remap_defi_script five_dftx (static (control op_return) ∷ push_data signed ∷ [])
      ≡ ok (static (control op_return) ∷ defi_tx signed ∷ []))
    × (remap_defi_script five_dftx (static (control op_return) ∷ push_data signed_more ∷ [])
        ≡ ok (static (control op_return) ∷ defi_tx signed ∷ []))
unfolding remap_defi_script is_defi_script is_defi_hex from_hex to_hex hex_digit
remap_unread = (refl, refl)
