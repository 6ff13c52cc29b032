-- ===== src/Tx.antt =====
-- packages/jellyfish-transaction/src/tx.ts and tx_composer.ts: transactions and their binary form.
-- N is the type of amounts and D that of DeFi transactions, with their composer `dftx`.
pub mod RoundTrip
use jellyfishsdk.Prelude.{ℕ, ◌/◌, ◌<◌, List, ◌++◌, length, Option, none, some, ltb, if◌then◌else◌}
use jellyfishsdk.Prelude.{Result, ok, ◌>>=◌, ◌>>◌, throw_if, unsafe_integer, ◌%◌, ◌==◌, not}
use jellyfishsdk.Platform.{SmartBuffer, BigNumber}
use jellyfishsdk.Buffer.Codec.{Codec, chain, ◌▹◌, record_of, array}
use jellyfishsdk.Buffer.Hex.{Text, from_hex}
use jellyfishsdk.Buffer.Words.{uint8, uint32}
use jellyfishsdk.Buffer.CompactSize.{write_compact_size}
use jellyfishsdk.Buffer.VarInt.{var_int}
use jellyfishsdk.Buffer.Amounts.{satoshi_as_big_number}
use jellyfishsdk.Buffer.Fields.{hex_be_buffer_le, compact_size_array, read_sized}
use jellyfishsdk.Script.OpCode.{OpCode, script}

-- `Script`
abbrev pub Script : Type 0 → Type 0
Script D = List (OpCode D)

pub record Vin (D : Type 0) : Type 0 where
  pub txid : Text
  pub index : ℕ
  pub script : Script D
  pub sequence : ℕ

-- `token_id` is undefined in an output that was read at a version below 4.
pub record Vout (N D : Type 0) : Type 0 where
  pub value : N
  pub script : Script D
  pub token_id : Option ℕ

pub record Transaction (N D : Type 0) : Type 0 where
  pub version : ℕ
  pub vin : List (Vin D)
  pub vout : List (Vout N D)
  pub lock_time : ℕ

pub record WitnessScript : Type 0 where
  pub hex : Text

pub record Witness : Type 0 where
  pub scripts : List WitnessScript

pub record TransactionSegWit (N D : Type 0) : Type 0 where
  pub version : ℕ
  pub marker : ℕ
  pub flag : ℕ
  pub vin : List (Vin D)
  pub vout : List (Vout N D)
  pub witness : List Witness
  pub lock_time : ℕ

module _ {D : Type 0} ⦃sb : SmartBuffer⦄ (dftx : Codec D) where
  -- `CVin`
  unfoldable pub c_vin : Codec (Vin D)
  c_vin =
      record_of (λ v. (v.txid, (v.index, (v.script, v.sequence))))
        (λ (txid, (index, (stack, sequence))). record {
          txid = txid;
          index = index;
          script = stack;
          sequence = sequence;
        })
        (hex_be_buffer_le 32 ▹ uint32 ▹ script dftx ▹ uint32)

-- bn.js takes undefined for 0.
token_or_zero : Option ℕ → ℕ
token_or_zero none = 0
token_or_zero (some n) = n

module _ {N D : Type 0} ⦃sb : SmartBuffer⦄ ⦃bn : BigNumber N⦄ (dftx : Codec D) where
  -- `CVoutV2`
  unfoldable pub c_vout_v2 : Codec (Vout N D)
  c_vout_v2 =
      record_of (λ v. (v.value, v.script))
        (λ (value, stack). record { value = value; script = stack; token_id = none })
        (satoshi_as_big_number ▹ script dftx)

  -- `CVoutV4`
  unfoldable pub c_vout_v4 : Codec (Vout N D)
  unfolding token_or_zero
  c_vout_v4 =
      record_of (λ v. (v.value, (v.script, token_or_zero v.token_id)))
        (λ (value, (stack, id)). record { value = value; script = stack; token_id = some id })
        (satoshi_as_big_number ▹ script dftx ▹ var_int)

  unfoldable pub c_vout : ℕ → Codec (Vout N D)
  c_vout version = if ltb version 4 then c_vout_v2 else c_vout_v4

  -- `CTransaction`: the composer of the outputs looks at the version.
  unfoldable pub c_transaction : Codec (Transaction N D)
  c_transaction =
      record_of (λ tx. (tx.version, (tx.vin, (tx.vout, tx.lock_time))))
        (λ (version, (vin, (vout, lock_time))). record {
          version = version;
          vin = vin;
          vout = vout;
          lock_time = lock_time;
        })
        (chain uint32
          λ version. compact_size_array (c_vin dftx) ▹ compact_size_array (c_vout version) ▹ uint32)

-- `writeCompactSize(script.hex.length / 2)`, which refuses the half of an odd length, and
-- `writeString(script.hex, 'hex')`.
unfoldable pub write_witness_hex : ⦃sb : SmartBuffer⦄ → Text → Result (List ℕ)
write_witness_hex hex = do
  throw_if (not (length hex % 2 == 0)) unsafe_integer
  size ← write_compact_size (length hex / 2)
  ok (size ++ from_hex hex)

module _ ⦃sb : SmartBuffer⦄ where
  -- `CWitnessScript`: `readString(len, 'hex')` is the hex of the next bytes.
  unfoldable pub c_witness_script : Codec WitnessScript
  c_witness_script =
      record_of (λ s. s.hex) (λ hex. record { hex = hex })
        (record { from_buffer = read_sized; to_buffer = write_witness_hex })

  -- `CWitness`
  unfoldable pub c_witness : Codec Witness
  c_witness =
      record_of (λ w. w.scripts) (λ scripts. record { scripts = scripts })
        (compact_size_array c_witness_script)

module _ {N D : Type 0} ⦃sb : SmartBuffer⦄ ⦃bn : BigNumber N⦄ (dftx : Codec D) where
  -- `CTransactionSegWit`: there is a witness for each input, and their number is not written.
  unfoldable pub c_transaction_seg_wit : Codec (TransactionSegWit N D)
  c_transaction_seg_wit =
      record_of
        (λ tx.
          (tx.version, (tx.marker, (tx.flag, (tx.vin, (tx.vout, (tx.witness, tx.lock_time)))))))
        (λ (version, (marker, (flag, (vin, (vout, (witness, lock_time)))))). record {
          version = version;
          marker = marker;
          flag = flag;
          vin = vin;
          vout = vout;
          witness = witness;
          lock_time = lock_time;
        })
        (chain uint32 λ version.
          uint8
          ▹ uint8
          ▹ chain (compact_size_array (c_vin dftx)) λ vin.
            compact_size_array (c_vout dftx version) ▹ array c_witness (length vin) ▹ uint32)
