-- ===== src/Script/Codes/Laws.antt =====
-- The table of words and the bytes of the classes agree.
use jellyfishsdk.Prelude.{ℕ, zero, suc, ◌<◌, ◌≤◌, ◌≡◌, refl, Bool, true, false, ◌&&◌, ◌==◌}
use jellyfishsdk.Prelude.{
  none, Result, ok, err, arith, ==→eq, le→ltb, lt→ltb, ltb, ◌||◌, not_one_byte,
}
use jellyfishsdk.Script.Codes.{StaticCode, code, hex_mapping, find_code, num_as_op_code}
use jellyfishsdk.Script.Codes.{
  unmapped, constant, control, stack, splice, bitwise, arithmetic, crypto, expansion, invalid,
}
use jellyfishsdk.Script.Codes.Constants.{ConstantCode, op_0}
use jellyfishsdk.Script.Codes.Control.{ControlCode, op_nop}
use jellyfishsdk.Script.Codes.Stack.{StackCode, op_toaltstack}
use jellyfishsdk.Script.Codes.Splice.{SpliceCode, op_cat}
use jellyfishsdk.Script.Codes.Bitwise.{BitwiseCode, op_invert}
use jellyfishsdk.Script.Codes.Arithmetic.{ArithmeticCode, op_1add}
use jellyfishsdk.Script.Codes.Crypto.{CryptoCode, op_ripemd160}
use jellyfishsdk.Script.Codes.Expansion.{ExpansionCode, op_nop1}
use jellyfishsdk.Script.Codes.Invalid.{InvalidCode, op_invalidopcode}

-- A check of every byte, by evaluation.
agrees : ℕ → Bool
unfolding num_as_op_code code hex_mapping find_code
agrees n = elim (num_as_op_code n) [ ok c ↦ code c == n | err e ↦ false ]

all_agree : ℕ → Bool
unfolding agrees
all_agree zero = true
all_agree (suc n) = agrees n && all_agree n

all_agree_table : all_agree 256 ≡ true
unfolding all_agree
all_agree_table = refl

all_agree-agrees : (n i : ℕ) → all_agree n ≡ true → i < n → agrees i ≡ true
unfolding all_agree
all_agree-agrees zero i h lt = absurd (omega arith)
all_agree-agrees (suc n) i h lt = ground (arith, all_agree-agrees n i)

agrees-found :
    (n : ℕ) (r : Result StaticCode)
    → elim r as (λ _. Bool) [ ok c ↦ code c == n | err e ↦ false ] ≡ true
    → (c : StaticCode) × (r ≡ ok c) × (code c ≡ n)
agrees-found n (ok c) h = (c, refl, ==→eq (code c) n h)
agrees-found n (err e) h = cc

-- Every byte is the code of the word that `numAsOPCode` gives for it.
pub code-num_as_op_code :
    (num : ℕ) → num ≤ 0xff → (c : StaticCode) × (num_as_op_code num ≡ ok c) × (code c ≡ num)
unfolding agrees
code-num_as_op_code num h =
    agrees-found num (num_as_op_code num) (all_agree-agrees 256 num all_agree_table (omega arith))

-- `numAsOPCode` refuses what is more than a byte.
pub num_as_op_code_large : (num : ℕ) → 0xff < num → num_as_op_code num ≡ err not_one_byte
unfolding num_as_op_code
num_as_op_code_large num h = rw (lt→ltb 0xff num h)

-- A word that has a class of its own, or a byte behind the push words that has none.
abbrev pub IsWord : StaticCode → Type 0
IsWord (unmapped n) = (0x4f ≤ n) × (n ≤ 0xff) × (find_code n hex_mapping ≡ none)
IsWord (constant c) = Unit
IsWord (control c) = Unit
IsWord (stack c) = Unit
IsWord (splice c) = Unit
IsWord (bitwise c) = Unit
IsWord (arithmetic c) = Unit
IsWord (crypto c) = Unit
IsWord (expansion c) = Unit
IsWord (invalid c) = Unit

-- A class is found again under its byte, which is no push word.
abbrev pub Found : StaticCode → Type 0
Found c =
    (num_as_op_code (code c) ≡ ok c) × ((code c == 0) || ltb 0x4e (code c) ≡ true) × (code c < 256)

constant-Found : (c : ConstantCode) → Found (constant c)
unfolding num_as_op_code code hex_mapping find_code
constant-Found op_0 = (refl, refl, omega arith)
constant-Found _ = (refl, refl, omega arith)

control-Found : (c : ControlCode) → Found (control c)
unfolding num_as_op_code code hex_mapping find_code
control-Found op_nop = (refl, refl, omega arith)
control-Found _ = (refl, refl, omega arith)

stack-Found : (c : StackCode) → Found (stack c)
unfolding num_as_op_code code hex_mapping find_code
stack-Found op_toaltstack = (refl, refl, omega arith)
stack-Found _ = (refl, refl, omega arith)

splice-Found : (c : SpliceCode) → Found (splice c)
unfolding num_as_op_code code hex_mapping find_code
splice-Found op_cat = (refl, refl, omega arith)
splice-Found _ = (refl, refl, omega arith)

bitwise-Found : (c : BitwiseCode) → Found (bitwise c)
unfolding num_as_op_code code hex_mapping find_code
bitwise-Found op_invert = (refl, refl, omega arith)
bitwise-Found _ = (refl, refl, omega arith)

arithmetic-Found : (c : ArithmeticCode) → Found (arithmetic c)
unfolding num_as_op_code code hex_mapping find_code
arithmetic-Found op_1add = (refl, refl, omega arith)
arithmetic-Found _ = (refl, refl, omega arith)

crypto-Found : (c : CryptoCode) → Found (crypto c)
unfolding num_as_op_code code hex_mapping find_code
crypto-Found op_ripemd160 = (refl, refl, omega arith)
crypto-Found _ = (refl, refl, omega arith)

expansion-Found : (c : ExpansionCode) → Found (expansion c)
unfolding num_as_op_code code hex_mapping find_code
expansion-Found op_nop1 = (refl, refl, omega arith)
expansion-Found _ = (refl, refl, omega arith)

invalid-Found : (c : InvalidCode) → Found (invalid c)
unfolding num_as_op_code code hex_mapping find_code
invalid-Found op_invalidopcode = (refl, refl, omega arith)

unmapped-Found : (n : ℕ) → IsWord (unmapped n) → Found (unmapped n)
unfolding num_as_op_code code
unmapped-Found n (lo, hi, e) = (rw (le→ltb 0xff n hi, e), ground arith, omega arith)

pub word-Found : (c : StaticCode) → IsWord c → Found c
word-Found (constant c) h = constant-Found c
word-Found (control c) h = control-Found c
word-Found (stack c) h = stack-Found c
word-Found (splice c) h = splice-Found c
word-Found (bitwise c) h = bitwise-Found c
word-Found (arithmetic c) h = arithmetic-Found c
word-Found (crypto c) h = crypto-Found c
word-Found (expansion c) h = expansion-Found c
word-Found (invalid c) h = invalid-Found c
word-Found (unmapped n) h = unmapped-Found n h
