-- ===== src/Script/Codes/Splice.antt =====
-- packages/jellyfish-transaction/src/script/splice.ts: string words, with the byte of each class.
use Prim.Native.Nat.{ℕ}

pub data SpliceCode : Type 0 where
  op_cat op_substr op_left op_right op_size : SpliceCode

unfoldable pub splice_code : SpliceCode → ℕ
splice_code op_cat = 0x7e
splice_code op_substr = 0x7f
splice_code op_left = 0x80
splice_code op_right = 0x81
splice_code op_size = 0x82
