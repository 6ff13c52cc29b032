-- ===== src/Script/Codes/Stack.antt =====
-- packages/jellyfish-transaction/src/script/stack.ts: stack words, with the byte of each class.
use Prim.Native.Nat.{ℕ}

pub data StackCode : Type 0 where
  op_toaltstack op_fromaltstack op_2drop op_2dup op_3dup op_2over op_2rot op_2swap op_ifdup :
      StackCode
  op_depth op_drop op_dup op_nip op_over op_pick op_roll op_rot op_swap op_tuck : StackCode

unfoldable pub stack_code : StackCode → ℕ
stack_code op_toaltstack = 0x6b
stack_code op_fromaltstack = 0x6c
stack_code op_2drop = 0x6d
stack_code op_2dup = 0x6e
stack_code op_3dup = 0x6f
stack_code op_2over = 0x70
stack_code op_2rot = 0x71
stack_code op_2swap = 0x72
stack_code op_ifdup = 0x73
stack_code op_depth = 0x74
stack_code op_drop = 0x75
stack_code op_dup = 0x76
stack_code op_nip = 0x77
stack_code op_over = 0x78
stack_code op_pick = 0x79
stack_code op_roll = 0x7a
stack_code op_rot = 0x7b
stack_code op_swap = 0x7c
stack_code op_tuck = 0x7d
