-- ===== src/Signature.antt =====
-- packages/jellyfish-transaction-signature/src/tx_signature.ts, the hashes that it takes
-- (packages/jellyfish-crypto/src/hash.ts) and what it hashes (packages/jellyfish-transaction/src/
-- tx_segwit.ts): the witnesses of the inputs of a transaction.
pub mod Bytes
pub mod Preimage
pub mod ScriptCode
pub mod Input
pub mod Signed
pub mod Complete
use jellyfishsdk.Prelude.{
  ℕ, ◌≡◌, List, [], ◌∷◌, ◌++◌, length, All, Bool, true, false, not, ◌==◌, ◌&&◌, if◌then◌else◌,
  same_text, Option, none, some, get_elem?, Result, ok, err, ◌>>=◌, ◌>>◌, throw_if, call_failed,
  sighash_unsupported, key_mismatch, witness_script_required, no_inputs, inputs_mismatch,
  lock_time_set,
}
use jellyfishsdk.Platform.{IsByte, SmartBuffer, BigNumber}
use jellyfishsdk.Buffer.Codec.{Codec, ◌▹◌, record_of, write_each}
use jellyfishsdk.Buffer.Hex.{Text, to_hex, from_hex}
use jellyfishsdk.Buffer.Words.{uint32}
use jellyfishsdk.Buffer.Amounts.{satoshi_as_big_number}
use jellyfishsdk.Buffer.Fields.{hex, hex_be_buffer_le}
use jellyfishsdk.Script.Codes.{constant, stack, crypto, bitwise}
use jellyfishsdk.Script.Codes.Constants.{op_0}
use jellyfishsdk.Script.Codes.Stack.{op_dup}
use jellyfishsdk.Script.Codes.Crypto.{op_hash160, op_checksig}
use jellyfishsdk.Script.Codes.Bitwise.{op_equalverify}
use jellyfishsdk.Script.OpCode.{OpCode, static, push_data, script}
use jellyfishsdk.Tx.{
  Script, Vin, Vout, Transaction, TransactionSegWit, Witness, WitnessScript, c_vout_v2, c_vout_v4,
  c_vout,
}
use mathlib.Core.List.{reverse}

-- The digests of create-hash, which are buffers.
pub record CreateHash : Type 0 where
  pub sha256 : List ℕ → List ℕ
  pub ripemd160 : List ℕ → List ℕ
  pub sha256_bytes : (bs : List ℕ) → All IsByte (sha256 bs)
  pub sha256_length : (bs : List ℕ) → length (sha256 bs) ≡ 32

module _ ⦃ch : CreateHash⦄ where
  -- `dSHA256`
  abbrev pub d_sha256 : List ℕ → List ℕ
  d_sha256 bs = ch.sha256 (ch.sha256 bs)

  -- `HASH160`
  abbrev pub hash160 : List ℕ → List ℕ
  hash160 bs = ch.ripemd160 (ch.sha256 bs)

-- `SIGHASH.ALL`
abbrev pub sighash_all : ℕ
sighash_all = 0x01

pub record WitnessProgram (N D : Type 0) : Type 0 where
  pub version : ℕ
  pub hash_prevouts : Text
  pub hash_sequence : Text
  pub outpoint_tx_id : Text
  pub outpoint_index : ℕ
  pub script_code : Script D
  pub value : N
  pub sequence : ℕ
  pub hash_outputs : Text
  pub lock_time : ℕ
  pub hash_type : ℕ

-- The functions of an option are asynchronous: they may fail.
pub record SignInputOption (N D : Type 0) : Type 0 where
  pub prevout : Vout N D
  pub public_key : Result (List ℕ)
  pub sign : List ℕ → Result (List ℕ)
  pub witness_script : Option (Script D)

-- The hash type, and whether the lock time is validated. Where a caller leaves them out, the source
-- takes `SIGHASH.ALL` and true: both are given here.
pub record SignOption : Type 0 where
  pub sig_hash_type : ℕ
  pub lock_time : Bool

module _ {N D : Type 0} ⦃sb : SmartBuffer⦄ ⦃bn : BigNumber N⦄ (dftx : Codec D) where
  -- `CWitnessProgram`
  unfoldable pub c_witness_program : Codec (WitnessProgram N D)
  c_witness_program =
      record_of
        (λ wp. (
          wp.version,
          (
            wp.hash_prevouts,
            (
              wp.hash_sequence,
              (
                wp.outpoint_tx_id,
                (
                  wp.outpoint_index,
                  (
                    wp.script_code,
                    (wp.value, (wp.sequence, (wp.hash_outputs, (wp.lock_time, wp.hash_type)))),
                  ),
                ),
              ),
            ),
          ),
        ))
        (λ (
          version,
          (
            prevouts,
            (
              sequences,
              (id, (index, (code, (value, (sequence, (outputs, (lock_time, hash_type))))))),
            ),
          ),
        ).
          record {
            version = version;
            hash_prevouts = prevouts;
            hash_sequence = sequences;
            outpoint_tx_id = id;
            outpoint_index = index;
            script_code = code;
            value = value;
            sequence = sequence;
            hash_outputs = outputs;
            lock_time = lock_time;
            hash_type = hash_type;
          })
        (uint32
          ▹ hex 32
          ▹ hex 32
          ▹ hex_be_buffer_le 32
          ▹ uint32
          ▹ script dftx
          ▹ satoshi_as_big_number
          ▹ uint32
          ▹ hex 32
          ▹ uint32
          ▹ uint32)

module _ {D : Type 0} ⦃sb : SmartBuffer⦄ where
  unfoldable pub write_outpoints : List (Vin D) → Result (List ℕ)
  write_outpoints [] = ok []
  write_outpoints (vin ∷ rest) = do
    index ← sb.write_uint32_le vin.index
    more ← write_outpoints rest
    ok (reverse (from_hex vin.txid) ++ index ++ more)

  unfoldable pub write_sequences : List (Vin D) → Result (List ℕ)
  write_sequences [] = ok []
  write_sequences (vin ∷ rest) = do
    sequence ← sb.write_uint32_le vin.sequence
    more ← write_sequences rest
    ok (sequence ++ more)

module _ ⦃ch : CreateHash⦄ where
  -- What the three hashes of a transaction have in common.
  abbrev pub hash_all : ℕ → Result (List ℕ) → Result Text
  hash_all sig_hash_type bytes =
      throw_if (not (sig_hash_type == sighash_all)) sighash_unsupported
      >> (do bs ← bytes; ok (to_hex (d_sha256 bs)))

  -- The key of an option against the hash that an output asks for. A pushed hex has two digits for
  -- each of its 20 bytes.
  unfoldable pub matches_key : Text → Result (List ℕ) → Result Bool
  matches_key pushed key = if not (length pushed == 40) then ok false else (do
    pubkey ← key
    if same_text (to_hex (hash160 pubkey)) pushed then ok true else err key_mismatch)

abbrev pub witness_of : List ℕ → List ℕ → Witness
witness_of signature pubkey = record {
  scripts = record { hex = to_hex signature } ∷ record { hex = to_hex pubkey } ∷ [];
}

module _ {D : Type 0} ⦃ch : CreateHash⦄ where
  -- `isV0P2WPKH`
  unfoldable pub is_v0_p2wpkh : Script D → Result (List ℕ) → Result Bool
  is_v0_p2wpkh (static (constant op_0) ∷ push_data pushed ∷ []) key = matches_key pushed key
  is_v0_p2wpkh other key = ok false

  abbrev pub p2pkh_code : List ℕ → Script D
  p2pkh_code hash =
      static (stack op_dup)
      ∷ static (crypto op_hash160)
      ∷ push_data (to_hex hash)
      ∷ static (bitwise op_equalverify)
      ∷ static (crypto op_checksig)
      ∷ []

  unfoldable pub guess_script_code : Bool → Result (List ℕ) → Result (Script D)
  guess_script_code true key = do pubkey ← key; ok (p2pkh_code (hash160 pubkey))
  guess_script_code false key = err witness_script_required

  -- `getScriptCode`
  unfoldable pub get_script_code :
      Option (Script D) → Script D → Result (List ℕ) → Result (Script D)
  get_script_code (some code) prevout key = ok code
  get_script_code none prevout key = do
    guessed ← is_v0_p2wpkh prevout key
    guess_script_code guessed key

module _ {N D : Type 0} ⦃sb : SmartBuffer⦄ ⦃bn : BigNumber N⦄ ⦃ch : CreateHash⦄
    (dftx : Codec D) where
  unfoldable pub hash_prevouts : Transaction N D → ℕ → Result Text
  hash_prevouts tx sig_hash_type = hash_all sig_hash_type (write_outpoints tx.vin)

  unfoldable pub hash_sequence : Transaction N D → ℕ → Result Text
  hash_sequence tx sig_hash_type = hash_all sig_hash_type (write_sequences tx.vin)

  unfoldable pub hash_outputs : Transaction N D → ℕ → Result Text
  hash_outputs tx sig_hash_type =
      hash_all sig_hash_type (write_each (c_vout dftx tx.version) tx.vout)

  unfoldable pub as_witness_program :
      Transaction N D → Vin D → SignInputOption N D → ℕ → Result (WitnessProgram N D)
  as_witness_program tx vin option sig_hash_type = do
    prevouts ← hash_prevouts tx sig_hash_type
    sequences ← hash_sequence tx sig_hash_type
    code ← get_script_code option.witness_script option.prevout.script option.public_key
    outputs ← hash_outputs tx sig_hash_type
    ok (record {
      version = tx.version;
      hash_prevouts = prevouts;
      hash_sequence = sequences;
      outpoint_tx_id = vin.txid;
      outpoint_index = vin.index;
      script_code = code;
      value = option.prevout.value;
      sequence = vin.sequence;
      hash_outputs = outputs;
      lock_time = tx.lock_time;
      hash_type = sig_hash_type;
    })

  -- `TransactionSigner.signInput`, at the input that it looks up.
  unfoldable pub sign_input : Transaction N D → Vin D → SignInputOption N D → ℕ → Result Witness
  sign_input tx vin option sig_hash_type = do
    program ← as_witness_program tx vin option sig_hash_type
    preimage ← (c_witness_program dftx).to_buffer program
    der_signature ← option.sign (d_sha256 preimage)
    pubkey ← option.public_key
    ok (witness_of (der_signature ++ sig_hash_type ∷ []) pubkey)

  -- The loop of `sign` over the inputs with their options.
  unfoldable pub sign_inputs :
      Transaction N D → List (Vin D) → List (SignInputOption N D) → ℕ → Result (List Witness)
  sign_inputs tx [] options sig_hash_type = ok []
  sign_inputs tx (vin ∷ vins) [] sig_hash_type = err call_failed
  sign_inputs tx (vin ∷ vins) (option ∷ options) sig_hash_type = do
    witness ← sign_input tx vin option sig_hash_type
    witnesses ← sign_inputs tx vins options sig_hash_type
    ok (witness ∷ witnesses)

  -- `TransactionSigner.validate`
  unfoldable pub validate :
      Transaction N D → List (SignInputOption N D) → SignOption → Result (Unit {0})
  validate tx options option =
      throw_if (length tx.vin == 0) no_inputs
      >> throw_if (not (length tx.vin == length options)) inputs_mismatch
      >> throw_if (option.lock_time && not (tx.lock_time == 0)) lock_time_set

  -- `TransactionSigner.sign`
  unfoldable pub sign :
      Transaction N D → List (SignInputOption N D) → SignOption → Result (TransactionSegWit N D)
  sign tx options option = do
    checked ← validate tx options option
    witnesses ← sign_inputs tx tx.vin options option.sig_hash_type
    ok (record {
      version = tx.version;
      marker = 0x00;
      flag = 0x01;
      vin = tx.vin;
      vout = tx.vout;
      witness = witnesses;
      lock_time = tx.lock_time;
    })
