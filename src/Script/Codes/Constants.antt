-- ===== src/Script/Codes/Constants.antt =====
-- packages/jellyfish-transaction/src/script/constants.ts: small numbers pushed onto the stack, with the byte of each class.
-- OP_FALSE is OP_0, OP_TRUE is OP_1.
use Prim.Native.Nat.{ℕ}

pub data ConstantCode : Type 0 where
  op_0 op_1negate op_reserved op_1 op_2 op_3 op_4 op_5 op_6 op_7 op_8 op_9 op_10 op_11 op_12 :
      ConstantCode
  op_13 op_14 op_15 op_16 : ConstantCode

unfoldable pub constant_code : ConstantCode → ℕ
constant_code op_0 = 0x00
constant_code op_1negate = 0x4f
constant_code op_reserved = 0x50
constant_code op_1 = 0x51
constant_code op_2 = 0x52
constant_code op_3 = 0x53
constant_code op_4 = 0x54
constant_code op_5 = 0x55
constant_code op_6 = 0x56
constant_code op_7 = 0x57
constant_code op_8 = 0x58
constant_code op_9 = 0x59
constant_code op_10 = 0x5a
constant_code op_11 = 0x5b
constant_code op_12 = 0x5c
constant_code op_13 = 0x5d
constant_code op_14 = 0x5e
constant_code op_15 = 0x5f
constant_code op_16 = 0x60
