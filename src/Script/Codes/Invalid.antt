-- ===== src/Script/Codes/Invalid.antt =====
-- packages/jellyfish-transaction/src/script/invalid.ts: the invalid word, with the byte of each class.
use Prim.Native.Nat.{ℕ}

pub data InvalidCode : Type 0 where
  op_invalidopcode : InvalidCode

unfoldable pub invalid_code : InvalidCode → ℕ
invalid_code op_invalidopcode = 0xff
