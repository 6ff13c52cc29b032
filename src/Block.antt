-- ===== src/Block.antt =====
-- packages/jellyfish-block/src: block headers and blocks.
pub mod RoundTrip
use jellyfishsdk.Prelude.{ℕ, List, Result, ok, ◌>>=◌, ltb, ◌==◌, if◌then◌else◌}
use jellyfishsdk.Platform.{SmartBuffer, BigNumber}
use jellyfishsdk.Buffer.Codec.{Codec, ◌▹◌, record_of}
use jellyfishsdk.Buffer.Hex.{Text}
use jellyfishsdk.Buffer.Words.{uint32}
use jellyfishsdk.Buffer.Amounts.{big_number_uint64}
use jellyfishsdk.Buffer.Fields.{hex_be_buffer_le, compact_size_hex, compact_size_array}
use jellyfishsdk.Tx.{Transaction, TransactionSegWit, c_transaction, c_transaction_seg_wit}

pub record BlockHeader (N : Type 0) : Type 0 where
  pub version : ℕ
  pub hash_prev_block : Text
  pub hash_merkle_root : Text
  pub time : ℕ
  pub bits : ℕ
  pub stake_modifier : Text
  pub height : N
  pub minted_blocks : N
  pub signature : Text

-- `TransactionSegWit | Transaction`
pub data BlockTransaction (N D : Type 0) : Type 0 where
  plain : Transaction N D → BlockTransaction N D
  seg_wit : TransactionSegWit N D → BlockTransaction N D

pub record Block (N D : Type 0) : Type 0 where
  pub block_header : BlockHeader N
  pub transactions : List (BlockTransaction N D)

-- `CBlockHeader`
unfoldable pub c_block_header :
    {N : Type 0} ⦃sb : SmartBuffer⦄ ⦃bn : BigNumber N⦄ → Codec (BlockHeader N)
c_block_header =
    record_of
      (λ h. (
        h.version,
        (
          h.hash_prev_block,
          (
            h.hash_merkle_root,
            (h.time, (h.bits, (h.stake_modifier, (h.height, (h.minted_blocks, h.signature))))),
          ),
        ),
      ))
      (λ (version, (prev, (root, (time, (bits, (modifier, (height, (minted, signature)))))))).
        record {
          version = version;
          hash_prev_block = prev;
          hash_merkle_root = root;
          time = time;
          bits = bits;
          stake_modifier = modifier;
          height = height;
          minted_blocks = minted;
          signature = signature;
        })
      (uint32
        ▹ hex_be_buffer_le 32
        ▹ hex_be_buffer_le 32
        ▹ uint32
        ▹ uint32
        ▹ hex_be_buffer_le 32
        ▹ big_number_uint64
        ▹ big_number_uint64
        ▹ compact_size_hex)

-- What a `CTransaction` takes from an object that has more fields.
unfoldable pub as_transaction : {N D : Type 0} → TransactionSegWit N D → Transaction N D
as_transaction tx = record {
  version = tx.version;
  vin = tx.vin;
  vout = tx.vout;
  lock_time = tx.lock_time;
}

-- The byte behind the version, without moving the read offset.
unfoldable pub read_marker : ⦃sb : SmartBuffer⦄ → List ℕ → Result ℕ
read_marker ⦃sb = sb⦄ bs = do
  (version, rest) ← sb.read_uint32_le bs
  (marker, rest') ← sb.read_uint8 rest
  ok marker

module _ {N D : Type 0} ⦃sb : SmartBuffer⦄ ⦃bn : BigNumber N⦄ (dftx : Codec D) where
  unfoldable pub read_plain : List ℕ → Result (BlockTransaction N D × List ℕ)
  read_plain bs = do (tx, rest) ← (c_transaction dftx).from_buffer bs; ok (plain tx, rest)

  unfoldable pub read_seg_wit : List ℕ → Result (BlockTransaction N D × List ℕ)
  read_seg_wit bs = do
    (tx, rest) ← (c_transaction_seg_wit dftx).from_buffer bs
    ok (seg_wit tx, rest)

  unfoldable pub read_transaction : List ℕ → Result (BlockTransaction N D × List ℕ)
  read_transaction bs = do
    marker ← read_marker bs
    if ltb 0x00 marker then read_plain bs else read_seg_wit bs

  unfoldable pub write_transaction : BlockTransaction N D → Result (List ℕ)
  write_transaction (plain tx) = (c_transaction dftx).to_buffer tx
  write_transaction (seg_wit tx) =
      if tx.marker == 0x00
      then (c_transaction_seg_wit dftx).to_buffer tx
      else (c_transaction dftx).to_buffer (as_transaction tx)

  abbrev pub c_block_transaction : Codec (BlockTransaction N D)
  c_block_transaction = record { from_buffer = read_transaction; to_buffer = write_transaction }

  -- `CBlock`
  unfoldable pub c_block : Codec (Block N D)
  c_block =
      record_of (λ b. (b.block_header, b.transactions))
        (λ (header, txs). record { block_header = header; transactions = txs })
        (c_block_header ▹ compact_size_array c_block_transaction)
