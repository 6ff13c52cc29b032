-- ===== src/Script/Codes.antt =====
-- packages/jellyfish-transaction/src/script/opcode.ts and mapping.ts: the one-byte words, and the
-- table from a byte to its word. Each child holds the classes of one source file.
pub mod Constants
pub mod Control
pub mod Stack
pub mod Splice
pub mod Bitwise
pub mod Arithmetic
pub mod Crypto
pub mod Expansion
pub mod Invalid
pub mod Laws
use jellyfishsdk.Prelude.{ℕ, List, [], ◌∷◌, Option, none, some, ltb, ◌==◌, if◌then◌else◌}
use jellyfishsdk.Prelude.{Result, ok, err, ◌>>=◌, ◌>>◌, throw_if, not_one_byte}
use jellyfishsdk.Script.Codes.Constants.{
  ConstantCode, constant_code, op_0, op_1negate, op_reserved, op_1, op_2, op_3, op_4, op_5, op_6,
  op_7, op_8, op_9, op_10, op_11, op_12, op_13, op_14, op_15, op_16,
}
use jellyfishsdk.Script.Codes.Control.{
  ControlCode, control_code, op_nop, op_ver, op_if, op_notif, op_verif, op_vernotif, op_else,
  op_endif, op_verify, op_return,
}
use jellyfishsdk.Script.Codes.Stack.{
  StackCode, stack_code, op_toaltstack, op_fromaltstack, op_2drop, op_2dup, op_3dup, op_2over,
  op_2rot, op_2swap, op_ifdup, op_depth, op_drop, op_dup, op_nip, op_over, op_pick, op_roll, op_rot,
  op_swap, op_tuck,
}
use jellyfishsdk.Script.Codes.Splice.{
  SpliceCode, splice_code, op_cat, op_substr, op_left, op_right, op_size,
}
use jellyfishsdk.Script.Codes.Bitwise.{
  BitwiseCode, bitwise_code, op_invert, op_and, op_or, op_xor, op_equal, op_equalverify,
  op_reserved1, op_reserved2,
}
use jellyfishsdk.Script.Codes.Arithmetic.{
  ArithmeticCode, arithmetic_code, op_1add, op_1sub, op_2mul, op_2div, op_negate, op_abs, op_not,
  op_0notequal, op_add, op_sub, op_mul, op_div, op_mod, op_lshift, op_rshift, op_booland, op_boolor,
  op_numequal, op_numequalverify, op_numnotequal, op_lessthan, op_greaterthan, op_lessthanorequal,
  op_greaterthanorequal, op_min, op_max, op_within,
}
use jellyfishsdk.Script.Codes.Crypto.{
  CryptoCode, crypto_code, op_ripemd160, op_sha1, op_sha3, op_sha256, op_hash160, op_hash256,
  op_codeseparator, op_checksig, op_checksigverify, op_checkmultisig, op_checkmultisigverify,
}
use jellyfishsdk.Script.Codes.Expansion.{
  ExpansionCode, expansion_code, op_nop1, op_checklocktimeverify, op_checksequenceverify, op_nop4,
  op_nop5, op_nop6, op_nop7, op_nop8, op_nop9, op_nop10,
}
use jellyfishsdk.Script.Codes.Invalid.{InvalidCode, invalid_code, op_invalidopcode}

-- `StaticCode`, by the class that it is an instance of; `unmapped` is `OP_UNMAPPED`.
pub data StaticCode : Type 0 where
  constant : ConstantCode → StaticCode
  control : ControlCode → StaticCode
  stack : StackCode → StaticCode
  splice : SpliceCode → StaticCode
  bitwise : BitwiseCode → StaticCode
  arithmetic : ArithmeticCode → StaticCode
  crypto : CryptoCode → StaticCode
  expansion : ExpansionCode → StaticCode
  invalid : InvalidCode → StaticCode
  unmapped : ℕ → StaticCode

unfoldable pub code : StaticCode → ℕ
unfolding constant_code control_code stack_code splice_code bitwise_code arithmetic_code crypto_code
    expansion_code invalid_code
code (constant c) = constant_code c
code (control c) = control_code c
code (stack c) = stack_code c
code (splice c) = splice_code c
code (bitwise c) = bitwise_code c
code (arithmetic c) = arithmetic_code c
code (crypto c) = crypto_code c
code (expansion c) = expansion_code c
code (invalid c) = invalid_code c
code (unmapped n) = n

-- `HEX_MAPPING`
unfoldable pub hex_mapping : List (ℕ × StaticCode)
hex_mapping =
    (0x00, constant op_0)
    ∷ (0x4f, constant op_1negate)
    ∷ (0x50, constant op_reserved)
    ∷ (0x51, constant op_1)
    ∷ (0x52, constant op_2)
    ∷ (0x53, constant op_3)
    ∷ (0x54, constant op_4)
    ∷ (0x55, constant op_5)
    ∷ (0x56, constant op_6)
    ∷ (0x57, constant op_7)
    ∷ (0x58, constant op_8)
    ∷ (0x59, constant op_9)
    ∷ (0x5a, constant op_10)
    ∷ (0x5b, constant op_11)
    ∷ (0x5c, constant op_12)
    ∷ (0x5d, constant op_13)
    ∷ (0x5e, constant op_14)
    ∷ (0x5f, constant op_15)
    ∷ (0x60, constant op_16)
    ∷ (0x61, control op_nop)
    ∷ (0x62, control op_ver)
    ∷ (0x63, control op_if)
    ∷ (0x64, control op_notif)
    ∷ (0x65, control op_verif)
    ∷ (0x66, control op_vernotif)
    ∷ (0x67, control op_else)
    ∷ (0x68, control op_endif)
    ∷ (0x69, control op_verify)
    ∷ (0x6a, control op_return)
    ∷ (0x6b, stack op_toaltstack)
    ∷ (0x6c, stack op_fromaltstack)
    ∷ (0x6d, stack op_2drop)
    ∷ (0x6e, stack op_2dup)
    ∷ (0x6f, stack op_3dup)
    ∷ (0x70, stack op_2over)
    ∷ (0x71, stack op_2rot)
    ∷ (0x72, stack op_2swap)
    ∷ (0x73, stack op_ifdup)
    ∷ (0x74, stack op_depth)
    ∷ (0x75, stack op_drop)
    ∷ (0x76, stack op_dup)
    ∷ (0x77, stack op_nip)
    ∷ (0x78, stack op_over)
    ∷ (0x79, stack op_pick)
    ∷ (0x7a, stack op_roll)
    ∷ (0x7b, stack op_rot)
    ∷ (0x7c, stack op_swap)
    ∷ (0x7d, stack op_tuck)
    ∷ (0x7e, splice op_cat)
    ∷ (0x7f, splice op_substr)
    ∷ (0x80, splice op_left)
    ∷ (0x81, splice op_right)
    ∷ (0x82, splice op_size)
    ∷ (0x83, bitwise op_invert)
    ∷ (0x84, bitwise op_and)
    ∷ (0x85, bitwise op_or)
    ∷ (0x86, bitwise op_xor)
    ∷ (0x87, bitwise op_equal)
    ∷ (0x88, bitwise op_equalverify)
    ∷ (0x89, bitwise op_reserved1)
    ∷ (0x8a, bitwise op_reserved2)
    ∷ (0x8b, arithmetic op_1add)
    ∷ (0x8c, arithmetic op_1sub)
    ∷ (0x8d, arithmetic op_2mul)
    ∷ (0x8e, arithmetic op_2div)
    ∷ (0x8f, arithmetic op_negate)
    ∷ (0x90, arithmetic op_abs)
    ∷ (0x91, arithmetic op_not)
    ∷ (0x92, arithmetic op_0notequal)
    ∷ (0x93, arithmetic op_add)
    ∷ (0x94, arithmetic op_sub)
    ∷ (0x95, arithmetic op_mul)
    ∷ (0x96, arithmetic op_div)
    ∷ (0x97, arithmetic op_mod)
    ∷ (0x98, arithmetic op_lshift)
    ∷ (0x99, arithmetic op_rshift)
    ∷ (0x9a, arithmetic op_booland)
    ∷ (0x9b, arithmetic op_boolor)
    ∷ (0x9c, arithmetic op_numequal)
    ∷ (0x9d, arithmetic op_numequalverify)
    ∷ (0x9e, arithmetic op_numnotequal)
    ∷ (0x9f, arithmetic op_lessthan)
    ∷ (0xa0, arithmetic op_greaterthan)
    ∷ (0xa1, arithmetic op_lessthanorequal)
    ∷ (0xa2, arithmetic op_greaterthanorequal)
    ∷ (0xa3, arithmetic op_min)
    ∷ (0xa4, arithmetic op_max)
    ∷ (0xa5, arithmetic op_within)
    ∷ (0xa6, crypto op_ripemd160)
    ∷ (0xa7, crypto op_sha1)
    ∷ (0xc0, crypto op_sha3)
    ∷ (0xa8, crypto op_sha256)
    ∷ (0xa9, crypto op_hash160)
    ∷ (0xaa, crypto op_hash256)
    ∷ (0xab, crypto op_codeseparator)
    ∷ (0xac, crypto op_checksig)
    ∷ (0xad, crypto op_checksigverify)
    ∷ (0xae, crypto op_checkmultisig)
    ∷ (0xaf, crypto op_checkmultisigverify)
    ∷ (0xb0, expansion op_nop1)
    ∷ (0xb1, expansion op_checklocktimeverify)
    ∷ (0xb2, expansion op_checksequenceverify)
    ∷ (0xb3, expansion op_nop4)
    ∷ (0xb4, expansion op_nop5)
    ∷ (0xb5, expansion op_nop6)
    ∷ (0xb6, expansion op_nop7)
    ∷ (0xb7, expansion op_nop8)
    ∷ (0xb8, expansion op_nop9)
    ∷ (0xb9, expansion op_nop10)
    ∷ (0xff, invalid op_invalidopcode)
    ∷ []

-- `HEX_MAPPING[num]`
unfoldable pub find_code : ℕ → List (ℕ × StaticCode) → Option StaticCode
find_code num [] = none
find_code num ((n, c) ∷ rest) = if n == num then some c else find_code num rest

mapped_or_unmapped : ℕ → Option StaticCode → StaticCode
mapped_or_unmapped num none = unmapped num
mapped_or_unmapped num (some c) = c

unfoldable pub num_as_op_code : ℕ → Result StaticCode
unfolding mapped_or_unmapped
num_as_op_code num = do
  throw_if (ltb 0xff num) not_one_byte
  ok (mapped_or_unmapped num (find_code num hex_mapping))
