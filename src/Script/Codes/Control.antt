-- ===== src/Script/Codes/Control.antt =====
-- packages/jellyfish-transaction/src/script/control.ts: flow control, with the byte of each class.
use Prim.Native.Nat.{ℕ}

pub data ControlCode : Type 0 where
  op_nop op_ver op_if op_notif op_verif op_vernotif op_else op_endif op_verify op_return :
      ControlCode

unfoldable pub control_code : ControlCode → ℕ
control_code op_nop = 0x61
control_code op_ver = 0x62
control_code op_if = 0x63
control_code op_notif = 0x64
control_code op_verif = 0x65
control_code op_vernotif = 0x66
control_code op_else = 0x67
control_code op_endif = 0x68
control_code op_verify = 0x69
control_code op_return = 0x6a
