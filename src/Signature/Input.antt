-- ===== src/Signature/Input.antt =====
-- packages/jellyfish-transaction-signature/src/tx_signature.ts: the witness of one input.
use jellyfishsdk.Prelude.{ℕ, ◌≡◌, refl, sym, ap, ◌∙◌, List, [], ◌∷◌, ◌++◌, ok, >>=-eq-ok}
use jellyfishsdk.Platform.{SmartBuffer, BigNumber}
use jellyfishsdk.Buffer.Codec.{Codec, write_each}
use jellyfishsdk.Buffer.Hex.{Text, to_hex}
use jellyfishsdk.Tx.{Script, Vin, Transaction, Witness, c_vout}
use jellyfishsdk.Signature.{
  CreateHash, d_sha256, sighash_all, WitnessProgram, SignInputOption, c_witness_program,
  hash_prevouts, hash_sequence, hash_outputs, get_script_code, as_witness_program, witness_of,
  sign_input,
}
use jellyfishsdk.Signature.Preimage.{
  IsPreimage, hash_prevouts-ok, hash_sequence-ok, hash_outputs-ok, c_witness_program-bytes,
}
use jellyfishsdk.Signature.Bytes.{outpoints, sequences}
use jellyfishsdk.Signature.ScriptCode.{IsScriptCode, get_script_code-IsScriptCode, ok_inj}

module _ {N D : Type 0} ⦃sb : SmartBuffer⦄ ⦃bn : BigNumber N⦄ ⦃ch : CreateHash⦄
    (dftx : Codec D) where
  -- A witness of an input: a signature of the hash of its preimage with the hash type, and the key.
  abbrev pub IsSigned : Transaction N D → Vin D → SignInputOption N D → Witness → Type 0
  IsSigned tx vin option witness =
      (key : List ℕ) × (code : Script D) × (preimage : List ℕ) × (signature : List ℕ)
      × (option.public_key ≡ ok key)
      × IsScriptCode option.witness_script option.prevout.script key code
      × IsPreimage dftx tx vin code option.prevout.value preimage
      × (option.sign (d_sha256 preimage) ≡ ok signature)
      × (witness ≡ witness_of (signature ++ sighash_all ∷ []) key)

  -- The witness program with the digests of these outputs.
  abbrev pub program_of : Transaction N D → Vin D → N → Script D → List ℕ → WitnessProgram N D
  program_of tx vin value code outputs = record {
    version = tx.version;
    hash_prevouts = to_hex (d_sha256 (outpoints tx.vin));
    hash_sequence = to_hex (d_sha256 (sequences tx.vin));
    outpoint_tx_id = vin.txid;
    outpoint_index = vin.index;
    script_code = code;
    value = value;
    sequence = vin.sequence;
    hash_outputs = to_hex (d_sha256 outputs);
    lock_time = tx.lock_time;
    hash_type = sighash_all;
  }

  as_witness_program-ok :
      (tx : Transaction N D) (vin : Vin D) (option : SignInputOption N D) (t : ℕ)
      (p : WitnessProgram N D) (key : List ℕ)
      → option.public_key ≡ ok key
      → as_witness_program dftx tx vin option t ≡ ok p
      → (code : Script D) × (outputs : List ℕ) × (t ≡ sighash_all)
        × IsScriptCode option.witness_script option.prevout.script key code
        × (write_each (c_vout dftx tx.version) tx.vout ≡ ok outputs)
        × (p ≡ program_of tx vin option.prevout.value code outputs)
  unfolding as_witness_program
  as_witness_program-ok tx vin option t p key e h =
      let (prevouts, hv, g1) = >>=-eq-ok (hash_prevouts dftx tx t) _ h in
      let (sequence, hq, g2) = >>=-eq-ok (hash_sequence dftx tx t) _ g1 in
      let (code, hc, g3) =
        >>=-eq-ok (get_script_code option.witness_script option.prevout.script option.public_key) _
          g2 in
      let (hash, ho, g4) = >>=-eq-ok (hash_outputs dftx tx t) _ g3 in
      let (all, ep) = hash_prevouts-ok dftx tx t prevouts hv in
      let (outputs, hw, eo) = hash_outputs-ok dftx tx t hash ho in
      (
        code,
        outputs,
        all,
        get_script_code-IsScriptCode option.witness_script option.prevout.script option.public_key
            key code e hc,
        hw,
        made prevouts sequence hash code outputs all ep (hash_sequence-ok dftx tx t sequence hq) eo
            (ok_inj g4),
      )
    where
      made :
          (prevouts sequence hash : Text) (code : Script D) (outputs : List ℕ)
          → t ≡ sighash_all
          → prevouts ≡ to_hex (d_sha256 (outpoints tx.vin))
          → sequence ≡ to_hex (d_sha256 (sequences tx.vin))
          → hash ≡ to_hex (d_sha256 outputs)
          → record {
            version = tx.version;
            hash_prevouts = prevouts;
            hash_sequence = sequence;
            outpoint_tx_id = vin.txid;
            outpoint_index = vin.index;
            script_code = code;
            value = option.prevout.value;
            sequence = vin.sequence;
            hash_outputs = hash;
            lock_time = tx.lock_time;
            hash_type = t;
          }
            ≡ p
          → p ≡ program_of tx vin option.prevout.value code outputs
      made prevouts sequence hash code outputs a b c d e = sym e ∙ (λ i.
          record (program_of tx vin option.prevout.value code outputs) {
            hash_prevouts = b i;
            hash_sequence = c i;
            hash_outputs = d i;
            hash_type = a i;
          })

  program_of-IsPreimage :
      (tx : Transaction N D) (vin : Vin D) (value : N) (code : Script D) (outputs preimage : List ℕ)
      → write_each (c_vout dftx tx.version) tx.vout ≡ ok outputs
      → (c_witness_program dftx).to_buffer (program_of tx vin value code outputs) ≡ ok preimage
      → IsPreimage dftx tx vin code value preimage
  program_of-IsPreimage tx vin value code outputs preimage h e =
      let (script, amount, hs, ha, same) =
        c_witness_program-bytes dftx (program_of tx vin value code outputs) (outpoints tx.vin)
          (sequences tx.vin) outputs preimage refl refl refl e in
      (outputs, script, amount, h, hs, ha, same)

  pub sign_input-IsSigned :
      (tx : Transaction N D) (vin : Vin D) (option : SignInputOption N D) (t : ℕ)
      (witness : Witness)
      → sign_input dftx tx vin option t ≡ ok witness
      → (t ≡ sighash_all) × IsSigned tx vin option witness
  unfolding sign_input
  sign_input-IsSigned tx vin option t witness h =
      let (program, hp, h1) = >>=-eq-ok (as_witness_program dftx tx vin option t) _ h in
      let (preimage, hb, h2) = >>=-eq-ok ((c_witness_program dftx).to_buffer program) _ h1 in
      let (signature, hs, h3) = >>=-eq-ok (option.sign (d_sha256 preimage)) _ h2 in
      let (key, hk, h4) = >>=-eq-ok option.public_key _ h3 in
      signed program preimage signature key hb hs hk (ok_inj h4)
        (as_witness_program-ok tx vin option t program key hk hp)
    where
      signed :
          (program : WitnessProgram N D) (preimage signature key : List ℕ)
          → (c_witness_program dftx).to_buffer program ≡ ok preimage
          → option.sign (d_sha256 preimage) ≡ ok signature
          → option.public_key ≡ ok key
          → witness_of (signature ++ t ∷ []) key ≡ witness
          → (code : Script D) × (outputs : List ℕ) × (t ≡ sighash_all)
            × IsScriptCode option.witness_script option.prevout.script key code
            × (write_each (c_vout dftx tx.version) tx.vout ≡ ok outputs)
            × (program ≡ program_of tx vin option.prevout.value code outputs)
          → (t ≡ sighash_all) × IsSigned tx vin option witness
      signed program preimage signature key hb hs hk hw (code, outputs, all, hc, ho, same) = (
        all,
        (
          key,
          code,
          preimage,
          signature,
          hk,
          hc,
          program_of-IsPreimage tx vin option.prevout.value code outputs preimage ho
              (ap (c_witness_program dftx).to_buffer (sym same) ∙ hb),
          hs,
          sym hw ∙ ap (λ u. witness_of (signature ++ u ∷ []) key) all,
        ),
      )
