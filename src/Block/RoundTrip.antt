-- ===== src/Block/RoundTrip.antt =====
-- packages/jellyfish-block/src: a block is read back, each transaction in the form it has.
use jellyfishsdk.Prelude.{
  ℕ, zero, suc, ◌<◌, ◌≡◌, refl, sym, ap, subst, ◌∙◌, arith, List, [], ◌++◌, length, ok, >>=-eq-ok,
  eq→==, lt→ltb,
}
use jellyfishsdk.Platform.{SmartBuffer, BigNumber}
use jellyfishsdk.Buffer.Codec.{
  Codec, RoundTrip, ReadBack, RoundTrip-ReadBack, ◌▹◌, ▹-RoundTrip, record_of-RoundTrip, read_times,
}
use jellyfishsdk.Buffer.Codec.Reads.{front-reads, ok-injective}
use jellyfishsdk.Buffer.Words.{uint8, uint32, uint32-RoundTrip}
use jellyfishsdk.Buffer.CompactSize.{read_compact_size, read_tagged}
use jellyfishsdk.Buffer.Amounts.{IsUint64, big_number_uint64-RoundTrip}
use jellyfishsdk.Buffer.Fields.{read_array, compact_size_array}
use jellyfishsdk.Buffer.Fields.Laws.{
  IsHexOf, IsSized, IsArray, hex_be_buffer_le-RoundTrip, compact_size_hex-RoundTrip,
  compact_size_array-RoundTrip,
}
use jellyfishsdk.Tx.{Transaction, TransactionSegWit, c_transaction, c_transaction_seg_wit, c_vin}
use jellyfishsdk.Tx.RoundTrip.{
  IsUint32, IsTransaction, IsTransactionSegWit, c_transaction-RoundTrip,
  c_transaction_seg_wit-RoundTrip,
}
use jellyfishsdk.Block.{
  BlockHeader, BlockTransaction, plain, seg_wit, Block, c_block_header, read_marker, read_plain,
  read_seg_wit, read_transaction, write_transaction, c_block_transaction, c_block,
}

abbrev pub IsBlockHeader : {N : Type 0} ⦃bn : BigNumber N⦄ → BlockHeader N → Type 0
IsBlockHeader h =
    IsUint32 h.version
    × (IsHexOf 32 h.hash_prev_block
        × (IsHexOf 32 h.hash_merkle_root
            × (IsUint32 h.time
                × (IsUint32 h.bits
                    × (IsHexOf 32 h.stake_modifier
                        × (IsUint64 h.height
                            × (IsUint64 h.minted_blocks × IsSized h.signature)))))))

pub c_block_header-RoundTrip :
    (N : Type 0) ⦃sb : SmartBuffer⦄ ⦃bn : BigNumber N⦄
    → RoundTrip {A = BlockHeader N} c_block_header IsBlockHeader
unfolding c_block_header
c_block_header-RoundTrip N =
    record_of-RoundTrip _ _ _ _ (λ h. refl)
      (▹-RoundTrip _ _ uint32-RoundTrip (
        ▹-RoundTrip _ _ (hex_be_buffer_le-RoundTrip 32) (
          ▹-RoundTrip _ _ (hex_be_buffer_le-RoundTrip 32) (
            ▹-RoundTrip _ _ uint32-RoundTrip (
              ▹-RoundTrip _ _ uint32-RoundTrip (
                ▹-RoundTrip _ _ (hex_be_buffer_le-RoundTrip 32) (
                  ▹-RoundTrip _ _ (big_number_uint64-RoundTrip N) (
                    ▹-RoundTrip _ _ (big_number_uint64-RoundTrip N)
                      compact_size_hex-RoundTrip))))))))

-- A list that is not empty starts with a byte that is not zero.
module _ {A : Type 0} ⦃sb : SmartBuffer⦄ (c : Codec A) where
  array_marker :
      (bs rest : List ℕ) (xs : List A)
      → read_array c bs ≡ ok (xs, rest)
      → 0 < length xs
      → (first : ℕ) × (more : List ℕ) × (sb.read_uint8 bs ≡ ok (first, more)) × (0 < first)
  unfolding read_array read_compact_size read_tagged read_times
  array_marker bs rest xs e pos =
      let ((n, r1), e1, e2) = >>=-eq-ok (read_compact_size bs) (λ p. read_times c p.0 p.1) e in
      let ((first, more), e3, e4) = >>=-eq-ok (sb.read_uint8 bs) (λ p. read_tagged p.0 p.1) e1 in
      (first, more, e3, counted first n more r1 e4 e2)
    where
      counted :
          (first n : ℕ) (more r1 : List ℕ)
          → read_tagged first more ≡ ok (n, r1)
          → read_times c n r1 ≡ ok (xs, rest)
          → 0 < first
      counted zero n more r1 e4 e2 =
          let none_counted : n ≡ 0 = ap (λ p. p.0) (sym (ok-injective e4)) in
          let empty : xs ≡ [] =
            ap (λ p. p.0)
              (sym
                (ok-injective (subst (λ n. read_times c n r1 ≡ ok (xs, rest)) none_counted e2))) in
          absurd (omega (arith, ap length empty))
      counted (suc first) n more r1 e4 e2 = omega arith

module _ {N D : Type 0} ⦃sb : SmartBuffer⦄ ⦃bn : BigNumber N⦄ (dftx : Codec D) where
  -- A transaction without a witness has inputs; one with a witness has the marker 0.
  abbrev pub IsBlockTransaction : BlockTransaction N D → Type 0
  IsBlockTransaction (plain tx) = IsTransaction dftx tx × (0 < length tx.vin)
  IsBlockTransaction (seg_wit tx) = IsTransactionSegWit dftx tx × (tx.marker ≡ 0x00)

  -- The marker of a transaction with witnesses stands where it is looked for.
  seg_wit_marker :
      (bs rest : List ℕ) (tx : TransactionSegWit N D)
      → (c_transaction_seg_wit dftx).from_buffer bs ≡ ok (tx, rest)
      → read_marker bs ≡ ok tx.marker
  unfolding c_transaction_seg_wit ◌▹◌ read_marker
  seg_wit_marker bs rest tx e =
      let (f, r1, r2, v, m, made) =
        front-reads (c_transaction_seg_wit dftx) uint32 uint8 _ _ _ bs rest tx refl e in
      rw (v, m) (ap (λ t. ok t.marker) made)

  plain_marker :
      (bs rest : List ℕ) (tx : Transaction N D)
      → (c_transaction dftx).from_buffer bs ≡ ok (tx, rest)
      → 0 < length tx.vin
      → (marker : ℕ) × (read_marker bs ≡ ok marker) × (0 < marker)
  unfolding c_transaction ◌▹◌ read_marker
  plain_marker bs rest tx e pos =
      let (f, r1, r2, v, vins, made) =
        front-reads (c_transaction dftx) uint32 (compact_size_array (c_vin dftx)) _ _ _ bs rest tx
          refl e in
      let (first, more, m, h) =
        array_marker (c_vin dftx) r1 r2 f.1.0 vins (subst (λ t. 0 < length t.vin) (sym made) pos) in
      (first, rw (v, m), h)

  pub c_block_transaction-RoundTrip : RoundTrip (c_block_transaction dftx) IsBlockTransaction
  unfolding read_transaction write_transaction read_plain read_seg_wit
  c_block_transaction-RoundTrip (plain tx) (h, pos) =
      let (bs, w, bytes, r) = c_transaction-RoundTrip dftx tx h in
      (
        bs,
        w,
        bytes,
        λ rest.
            let (marker, m, p) = plain_marker (bs ++ rest) rest tx (r rest) pos in
            rw (m, lt→ltb 0 marker p, r rest),
      )
  c_block_transaction-RoundTrip (seg_wit tx) (h, none) =
      let (bs, w, bytes, r) = c_transaction_seg_wit-RoundTrip dftx tx h in
      (
        bs,
        rw (eq→== tx.marker 0 none, w),
        bytes,
        λ rest.
            let m = seg_wit_marker (bs ++ rest) rest tx (r rest) ∙ ap (λ n. ok n) none in
            rw (m, r rest),
      )

  abbrev pub IsBlock : Block N D → Type 0
  IsBlock b = IsBlockHeader b.block_header × IsArray IsBlockTransaction b.transactions

  pub c_block-RoundTrip : RoundTrip (c_block dftx) IsBlock
  unfolding c_block
  c_block-RoundTrip =
      record_of-RoundTrip _ _ _ _ (λ b. refl)
        (▹-RoundTrip _ _ (c_block_header-RoundTrip N)
          (compact_size_array-RoundTrip _ _ c_block_transaction-RoundTrip))

  -- A block is written, as bytes, and reading gives it back with whatever follows it, if its fields
  -- and transactions fit, those without witnesses have inputs, and those with witnesses have the
  -- marker 0: the marker of each transaction, or the number of its inputs, tells its form.
  pub c_block-ReadBack :
      (b : Block N D) (rest : List ℕ) → IsBlock b → ReadBack (c_block dftx) b rest
  c_block-ReadBack = RoundTrip-ReadBack (c_block dftx) c_block-RoundTrip
