-- ===== src/Script/Codes/Expansion.antt =====
-- packages/jellyfish-transaction/src/script/expansion.ts: reserved words and locktimes, with the byte of each class.
-- OP_NOP2 is OP_CHECKLOCKTIMEVERIFY, OP_NOP3 is OP_CHECKSEQUENCEVERIFY.
use Prim.Native.Nat.{ℕ}

pub data ExpansionCode : Type 0 where
  op_nop1 op_checklocktimeverify op_checksequenceverify op_nop4 op_nop5 op_nop6 op_nop7 op_nop8 :
      ExpansionCode
  op_nop9 op_nop10 : ExpansionCode

unfoldable pub expansion_code : ExpansionCode → ℕ
expansion_code op_nop1 = 0xb0
expansion_code op_checklocktimeverify = 0xb1
expansion_code op_checksequenceverify = 0xb2
expansion_code op_nop4 = 0xb3
expansion_code op_nop5 = 0xb4
expansion_code op_nop6 = 0xb5
expansion_code op_nop7 = 0xb6
expansion_code op_nop8 = 0xb7
expansion_code op_nop9 = 0xb8
expansion_code op_nop10 = 0xb9
