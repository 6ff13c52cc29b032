-- ===== src/Tx/RoundTrip.antt =====
-- packages/jellyfish-transaction/src/tx_composer.ts: every transaction is read back as written.
use jellyfishsdk.Prelude.{
  ℕ, ◌^◌, ◌<◌, ◌≤◌, ◌≡◌, refl, sym, ◌∙◌, ◌/◌, ◌%◌, arith, List, length, none, some,
}
use jellyfishsdk.Prelude.{ltb, if◌then◌else◌, Bool-cases, inl, inr, All}
use jellyfishsdk.Platform.{IsByte, SmartBuffer, BigNumber}
use jellyfishsdk.Buffer.Codec.{Codec, RoundTrip, chain-RoundTrip, ▹-RoundTrip, record_of-RoundTrip}
use jellyfishsdk.Buffer.Codec.{mapped-RoundTrip, array-RoundTrip, ReadBack, RoundTrip-ReadBack}
use jellyfishsdk.Buffer.Words.{uint8-RoundTrip, uint32-RoundTrip}
use jellyfishsdk.Buffer.CompactSize.{max_safe_integer}
use jellyfishsdk.Buffer.VarInt.Inverse.{var_int-RoundTrip}
use jellyfishsdk.Buffer.Amounts.{IsAmount, satoshi_as_big_number-RoundTrip}
use jellyfishsdk.Buffer.Fields.Laws.{IsHexOf, IsArray, hex_be_buffer_le-RoundTrip}
use jellyfishsdk.Buffer.Fields.Laws.{compact_size_array-RoundTrip}
use jellyfishsdk.Script.OpCode.RoundTrip.{IsScript, HasSafeLength, script-RoundTrip}
use jellyfishsdk.Tx.{
  Script, Vin, Vout, Transaction, c_vin, c_vout_v2, c_vout_v4, c_vout, c_transaction,
}
use jellyfishsdk.Tx.{TransactionSegWit, Witness, c_witness_script, c_witness}
use jellyfishsdk.Tx.{write_witness_hex, c_transaction_seg_wit, token_or_zero}
use jellyfishsdk.Buffer.Fields.{read_sized, write_sized}
use jellyfishsdk.Buffer.Hex.{Text, IsHex, from_hex, from_hex_inverse}
use jellyfishsdk.Buffer.Fields.Laws.{IsSized, compact_size_hex-RoundTrip}

abbrev pub IsUint32 : ℕ → Type 0
IsUint32 v = v < 2 ^ 32

module _ {D : Type 0} ⦃sb : SmartBuffer⦄ (dftx : Codec D) where
  abbrev pub IsWritableScript : Script D → Type 0
  IsWritableScript stack = IsScript dftx stack × HasSafeLength dftx stack

  abbrev pub IsVin : Vin D → Type 0
  IsVin v =
      IsHexOf 32 v.txid × (IsUint32 v.index × (IsWritableScript v.script × IsUint32 v.sequence))

  pub c_vin-RoundTrip : RoundTrip (c_vin dftx) IsVin
  unfolding c_vin
  c_vin-RoundTrip =
      record_of-RoundTrip _ _ _ _ (λ v. refl)
        (▹-RoundTrip _ _ (hex_be_buffer_le-RoundTrip 32) (
          ▹-RoundTrip _ _ uint32-RoundTrip
            (▹-RoundTrip _ _ (script-RoundTrip dftx) uint32-RoundTrip)))

module _ {N D : Type 0} ⦃sb : SmartBuffer⦄ ⦃bn : BigNumber N⦄ (dftx : Codec D) where
  -- An output of version 2 and 3 has no token, one of version 4 has one.
  abbrev pub IsVoutV2 : Vout N D → Type 0
  IsVoutV2 v = IsAmount v.value × IsWritableScript dftx v.script × (v.token_id ≡ none)

  abbrev pub IsVoutV4 : Vout N D → Type 0
  IsVoutV4 v =
      IsAmount v.value
      × IsWritableScript dftx v.script
      × ((t : ℕ) × (v.token_id ≡ some t) × (t ≤ max_safe_integer))

  abbrev pub IsVout : ℕ → Vout N D → Type 0
  IsVout version v = if ltb version 4 then IsVoutV2 v else IsVoutV4 v

  pub c_vout_v2-RoundTrip : RoundTrip (c_vout_v2 dftx) IsVoutV2
  unfolding c_vout_v2
  c_vout_v2-RoundTrip =
      mapped-RoundTrip _ _ _ _ _ (λ v (a, s, e). ((a, s), λ i. record v { token_id = sym e i }))
        (▹-RoundTrip _ _ (satoshi_as_big_number-RoundTrip N) (script-RoundTrip dftx))

  same_token :
      (v : Vout N D) (t : ℕ) → v.token_id ≡ some t → some (token_or_zero v.token_id) ≡ v.token_id
  unfolding token_or_zero
  same_token v t e = rw e

  pub c_vout_v4-RoundTrip : RoundTrip (c_vout_v4 dftx) IsVoutV4
  unfolding c_vout_v4 token_or_zero
  c_vout_v4-RoundTrip =
      mapped-RoundTrip _ _ _ _ _
        (λ v (a, s, (t, e, h)). ((a, (s, rw e h)), λ i. record v { token_id = same_token v t e i }))
        (▹-RoundTrip _ _ (satoshi_as_big_number-RoundTrip N)
          (▹-RoundTrip _ _ (script-RoundTrip dftx) var_int-RoundTrip))

  pub c_vout-RoundTrip : (version : ℕ) → RoundTrip (c_vout dftx version) (IsVout version)
  unfolding c_vout
  c_vout-RoundTrip version = elim (Bool-cases (ltb version 4)) [
    | inl old ↦ rw old (c_vout_v2-RoundTrip)
    | inr new ↦ rw new (c_vout_v4-RoundTrip)
  ]

  abbrev pub IsTransaction : Transaction N D → Type 0
  IsTransaction tx =
      IsUint32 tx.version
      × (IsArray (IsVin dftx) tx.vin
          × (IsArray (IsVout tx.version) tx.vout × IsUint32 tx.lock_time))

  pub c_transaction-RoundTrip : RoundTrip (c_transaction dftx) IsTransaction
  unfolding c_transaction
  c_transaction-RoundTrip =
      record_of-RoundTrip _ _ _ _ (λ tx. refl)
        (chain-RoundTrip _ _ _ _ uint32-RoundTrip λ version.
          ▹-RoundTrip _ _ (compact_size_array-RoundTrip _ _ (c_vin-RoundTrip dftx)) (
            ▹-RoundTrip _ _ (compact_size_array-RoundTrip _ _ (c_vout-RoundTrip version))
              uint32-RoundTrip))

-- The texts of a witness.
abbrev pub IsWitness : Witness → Type 0
IsWitness w = IsArray (λ s. IsSized s.hex) w.scripts

module _ ⦃sb : SmartBuffer⦄ where
  pub c_witness_script-RoundTrip : RoundTrip c_witness_script (λ s. IsSized s.hex)
  unfolding c_witness_script
  c_witness_script-RoundTrip = record_of-RoundTrip _ _ _ _ (λ s. refl) sized
    where
      same_size : (t : Text) → IsHex t → write_witness_hex t ≡ write_sized t
      same_size t h =
          let (same, bytes, len) = from_hex_inverse t h in
          let half : length t / 2 ≡ length (from_hex t) = omega arith in
          let even : length t % 2 ≡ 0 = omega arith in
          unfold write_witness_hex write_sized in rw (even, half)

      sized : RoundTrip (record { from_buffer = read_sized; to_buffer = write_witness_hex }) IsSized
      sized t h =
          let (bs, w, bytes, r) = compact_size_hex-RoundTrip t h in
          (bs, same_size t h.0 ∙ w, bytes, r)

  pub c_witness-RoundTrip : RoundTrip c_witness IsWitness
  unfolding c_witness
  c_witness-RoundTrip =
      record_of-RoundTrip _ _ _ _ (λ w. refl)
        (compact_size_array-RoundTrip _ _ c_witness_script-RoundTrip)

module _ {N D : Type 0} ⦃sb : SmartBuffer⦄ ⦃bn : BigNumber N⦄ (dftx : Codec D) where
  -- As many witnesses as inputs.
  abbrev pub IsTransactionSegWit : TransactionSegWit N D → Type 0
  IsTransactionSegWit tx =
      IsUint32 tx.version
      × (IsByte tx.marker
          × (IsByte tx.flag
              × (IsArray (IsVin dftx) tx.vin
                  × (IsArray (IsVout dftx tx.version) tx.vout
                      × ((All IsWitness tx.witness × (length tx.witness ≡ length tx.vin))
                          × IsUint32 tx.lock_time)))))

  pub c_transaction_seg_wit-RoundTrip : RoundTrip (c_transaction_seg_wit dftx) IsTransactionSegWit
  unfolding c_transaction_seg_wit
  c_transaction_seg_wit-RoundTrip =
      record_of-RoundTrip _ _ _ _ (λ tx. refl)
        (chain-RoundTrip _ _ _ _ uint32-RoundTrip λ version. ▹-RoundTrip _ _ uint8-RoundTrip (
          ▹-RoundTrip _ _ uint8-RoundTrip (
            chain-RoundTrip _ _ _ _ (compact_size_array-RoundTrip _ _ (c_vin-RoundTrip dftx)) λ vin.
              ▹-RoundTrip _ _ (compact_size_array-RoundTrip _ _ (c_vout-RoundTrip dftx version)) (
                ▹-RoundTrip _ _ (array-RoundTrip _ _ c_witness-RoundTrip (length vin))
                  uint32-RoundTrip))))

  -- A transaction whose fields fit is written, as bytes, and reading gives it back with whatever
  -- follows it: its version decides the form of its outputs both ways.
  pub c_transaction-ReadBack :
      (tx : Transaction N D) (rest : List ℕ)
      → IsTransaction dftx tx
      → ReadBack (c_transaction dftx) tx rest
  c_transaction-ReadBack = RoundTrip-ReadBack (c_transaction dftx) (c_transaction-RoundTrip dftx)

  -- A segregated-witness transaction whose fields fit, with as many witnesses as inputs, is
  -- written, as bytes, and reading gives it back with whatever follows it, though the number of
  -- witnesses is not written.
  pub c_transaction_seg_wit-ReadBack :
      (tx : TransactionSegWit N D) (rest : List ℕ)
      → IsTransactionSegWit tx
      → ReadBack (c_transaction_seg_wit dftx) tx rest
  c_transaction_seg_wit-ReadBack =
      RoundTrip-ReadBack (c_transaction_seg_wit dftx) c_transaction_seg_wit-RoundTrip
