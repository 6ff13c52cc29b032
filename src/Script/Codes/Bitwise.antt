-- ===== src/Script/Codes/Bitwise.antt =====
-- packages/jellyfish-transaction/src/script/bitwise.ts: bit logic, with the byte of each class.
use Prim.Native.Nat.{ℕ}

pub data BitwiseCode : Type 0 where
  op_invert op_and op_or op_xor op_equal op_equalverify op_reserved1 op_reserved2 : BitwiseCode

unfoldable pub bitwise_code : BitwiseCode → ℕ
bitwise_code op_invert = 0x83
bitwise_code op_and = 0x84
bitwise_code op_or = 0x85
bitwise_code op_xor = 0x86
bitwise_code op_equal = 0x87
bitwise_code op_equalverify = 0x88
bitwise_code op_reserved1 = 0x89
bitwise_code op_reserved2 = 0x8a
