-- ===== src/Tests/Transactions.antt =====
-- packages/jellyfish-transaction/src/tx_composer.ts: transactions that are read back.
use jellyfishsdk.Prelude.{
  ℕ, ◌≤◌, refl, arith, List, [], ◌∷◌, length, some, inl, ap, subst, Result, ok, err,
}
use jellyfishsdk.Buffer.Codec.{ReadBack, write_each}
use jellyfishsdk.Buffer.CompactSize.{max_safe_integer}
use jellyfishsdk.Script.OpCode.RoundTrip.{IsScript}
use jellyfishsdk.Buffer.Hex.{Text}
use jellyfishsdk.Script.OpCode.{is_defi_script}
use jellyfishsdk.Tx.{
  Vin, Vout, Transaction, TransactionSegWit, c_transaction, c_transaction_seg_wit,
}
use jellyfishsdk.Buffer.Fields.Laws.{IsHexOf}
use jellyfishsdk.Block.{BlockHeader, Block, plain, seg_wit, c_block}
use jellyfishsdk.Block.RoundTrip.{IsBlockHeader, c_block-ReadBack}
use jellyfishsdk.Tx.RoundTrip.{IsTransaction, IsTransactionSegWit}
use jellyfishsdk.Tx.RoundTrip.{
  IsWritableScript, IsVin, IsVout, c_transaction-ReadBack, c_transaction_seg_wit-ReadBack,
}
use jellyfishsdk.Tests.Node.{node_buffer, scaled}
use jellyfishsdk.Tests.Scripts.{raw_dftx, hash, p2pkh, p2pkh_safe}

abbrev txid : Text
txid =
    b'0' ∷ b'1' ∷ b'0' ∷ b'1' ∷ b'0' ∷ b'1' ∷ b'0' ∷ b'1' ∷ b'0' ∷ b'1' ∷ b'0' ∷ b'1' ∷ b'0' ∷ b'1'
    ∷ b'0' ∷ b'1' ∷ b'0' ∷ b'1' ∷ b'0' ∷ b'1' ∷ b'0' ∷ b'1' ∷ b'0' ∷ b'1' ∷ b'0' ∷ b'1' ∷ b'0'
    ∷ b'1' ∷ b'0' ∷ b'1' ∷ b'0' ∷ b'1' ∷ b'0' ∷ b'1' ∷ b'0' ∷ b'1' ∷ b'0' ∷ b'1' ∷ b'0' ∷ b'1'
    ∷ b'0' ∷ b'1' ∷ b'0' ∷ b'1' ∷ b'0' ∷ b'1' ∷ b'0' ∷ b'1' ∷ b'0' ∷ b'1' ∷ b'0' ∷ b'1' ∷ b'0'
    ∷ b'1' ∷ b'0' ∷ b'1' ∷ b'0' ∷ b'1' ∷ b'0' ∷ b'1' ∷ b'0' ∷ b'1' ∷ b'0' ∷ b'1' ∷ []

abbrev pub input : Vin Text
input = record { txid = txid; index = 1; script = []; sequence = 0xffffffff }

-- 1.5 coins of the token 3 to the key's hash.
abbrev pub output : Vout ℕ Text
output = record { value = 150000000; script = p2pkh; token_id = some 3 }

abbrev pub tx : Transaction ℕ Text
tx = record { version = 4; vin = input ∷ []; vout = output ∷ []; lock_time = 7 }

abbrev signed_tx : TransactionSegWit ℕ Text
signed_tx = record {
  version = 4;
  marker = 0;
  flag = 1;
  vin = input ∷ [];
  vout = output ∷ [];
  witness = record { scripts = record { hex = hash } ∷ [] } ∷ [];
  lock_time = 7;
}

pub hash_plain : IsScript raw_dftx p2pkh
unfolding is_defi_script
hash_plain = inl ((tt, (tt, ((omega arith, omega arith, omega arith), (tt, (tt, tt))))), refl)

no_words : IsWritableScript raw_dftx []
unfolding is_defi_script write_each
no_words =
    (inl (tt, refl), λ bs e. subst (λ l. l ≤ max_safe_integer) (ap length_or_zero e) (omega arith))
  where
    length_or_zero : Result (List ℕ) → ℕ
    length_or_zero r = elim r [ ok bs ↦ length bs | err e ↦ 0 ]

input-IsVin : IsVin raw_dftx input
input-IsVin = ((omega arith, refl), (omega arith, (no_words, omega arith)))

output-IsVout : IsVout raw_dftx 4 output
output-IsVout = ((150000000, refl, omega arith), (hash_plain, p2pkh_safe), (3, refl, omega arith))

txid_of_32 : IsHexOf 32 txid
txid_of_32 = (omega arith, refl)

pub tx_fits : IsTransaction raw_dftx tx
tx_fits = (
  omega arith,
  (((input-IsVin, tt), omega arith), (((output-IsVout, tt), omega arith), omega arith)),
)

signed_tx_fits : IsTransactionSegWit raw_dftx signed_tx
signed_tx_fits = (
  omega arith,
  (
    omega arith,
    (
      omega arith,
      (
        ((input-IsVin, tt), omega arith),
        (
          ((output-IsVout, tt), omega arith),
          ((((((omega arith, omega arith), tt), omega arith), tt), refl), omega arith),
        ),
      ),
    ),
  ),
)

c_transaction-ReadBack_example : ReadBack (c_transaction raw_dftx) tx (5 ∷ [])
c_transaction-ReadBack_example = c_transaction-ReadBack raw_dftx tx (5 ∷ []) tx_fits

c_transaction_seg_wit-ReadBack_example : ReadBack (c_transaction_seg_wit raw_dftx) signed_tx []
c_transaction_seg_wit-ReadBack_example =
    c_transaction_seg_wit-ReadBack raw_dftx signed_tx [] signed_tx_fits

abbrev header : BlockHeader ℕ
header = record {
  version = 1;
  hash_prev_block = txid;
  hash_merkle_root = txid;
  time = 1600000000;
  bits = 0x1d00ffff;
  stake_modifier = txid;
  height = 100000000;
  minted_blocks = 0;
  signature = hash;
}

abbrev block : Block ℕ Text
block = record { block_header = header; transactions = plain tx ∷ seg_wit signed_tx ∷ [] }

header-IsBlockHeader : IsBlockHeader header
header-IsBlockHeader = (
  omega arith,
  (
    txid_of_32,
    (
      txid_of_32,
      (
        omega arith,
        (
          omega arith,
          (
            txid_of_32,
            ((1, refl, omega arith), ((0, refl, omega arith), (omega arith, omega arith))),
          ),
        ),
      ),
    ),
  ),
)

c_block-ReadBack_example : ReadBack (c_block raw_dftx) block (1 ∷ [])
c_block-ReadBack_example =
    c_block-ReadBack raw_dftx block (1 ∷ [])
      (header-IsBlockHeader, (((tx_fits, omega arith), ((signed_tx_fits, refl), tt)), omega arith))
