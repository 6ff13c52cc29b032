-- ===== src/Script/Codes/Arithmetic.antt =====
-- packages/jellyfish-transaction/src/script/arithmetic.ts: arithmetic, with the byte of each class.
use Prim.Native.Nat.{ℕ}

pub data ArithmeticCode : Type 0 where
  op_1add op_1sub op_2mul op_2div op_negate op_abs op_not op_0notequal op_add op_sub op_mul :
      ArithmeticCode
  op_div op_mod op_lshift op_rshift op_booland op_boolor op_numequal op_numequalverify :
      ArithmeticCode
  op_numnotequal op_lessthan op_greaterthan op_lessthanorequal op_greaterthanorequal op_min :
      ArithmeticCode
  op_max op_within : ArithmeticCode

unfoldable pub arithmetic_code : ArithmeticCode → ℕ
arithmetic_code op_1add = 0x8b
arithmetic_code op_1sub = 0x8c
arithmetic_code op_2mul = 0x8d
arithmetic_code op_2div = 0x8e
arithmetic_code op_negate = 0x8f
arithmetic_code op_abs = 0x90
arithmetic_code op_not = 0x91
arithmetic_code op_0notequal = 0x92
arithmetic_code op_add = 0x93
arithmetic_code op_sub = 0x94
arithmetic_code op_mul = 0x95
arithmetic_code op_div = 0x96
arithmetic_code op_mod = 0x97
arithmetic_code op_lshift = 0x98
arithmetic_code op_rshift = 0x99
arithmetic_code op_booland = 0x9a
arithmetic_code op_boolor = 0x9b
arithmetic_code op_numequal = 0x9c
arithmetic_code op_numequalverify = 0x9d
arithmetic_code op_numnotequal = 0x9e
arithmetic_code op_lessthan = 0x9f
arithmetic_code op_greaterthan = 0xa0
arithmetic_code op_lessthanorequal = 0xa1
arithmetic_code op_greaterthanorequal = 0xa2
arithmetic_code op_min = 0xa3
arithmetic_code op_max = 0xa4
arithmetic_code op_within = 0xa5
