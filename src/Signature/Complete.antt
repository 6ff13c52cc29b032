-- ===== src/Signature/Complete.antt =====
-- packages/jellyfish-transaction-signature/src/tx_signature.ts: which transactions are signed without
-- an error.
use jellyfishsdk.Prelude.{ℕ, ◌≡◌, refl, arith, List, [], ◌∷◌, ◌++◌, length, All, ok}
use jellyfishsdk.Platform.{SmartBuffer, BigNumber}
use jellyfishsdk.Buffer.Codec.{Codec, RoundTrip, record_of-RoundTrip, ▹-RoundTrip, array-RoundTrip}
use jellyfishsdk.Buffer.Hex.{to_hex, to_hex-IsHex, length-to_hex}
use jellyfishsdk.Buffer.Words.{uint32-RoundTrip}
use jellyfishsdk.Buffer.Amounts.{IsAmount, satoshi_as_big_number-RoundTrip}
use jellyfishsdk.Buffer.Fields.Laws.{IsHexOf, hex-RoundTrip, hex_be_buffer_le-RoundTrip}
use jellyfishsdk.Script.OpCode.RoundTrip.{script-RoundTrip}
use jellyfishsdk.Tx.{Script, Vin, Transaction, TransactionSegWit, Witness, c_vout}
use jellyfishsdk.Tx.RoundTrip.{
  IsUint32, IsWritableScript, IsVin, IsVout, IsTransaction, c_vout-RoundTrip,
}
use jellyfishsdk.Signature.{
  CreateHash, d_sha256, sighash_all, WitnessProgram, SignInputOption, SignOption, c_witness_program,
  write_outpoints, write_sequences, hash_prevouts, hash_sequence, hash_outputs, get_script_code,
  as_witness_program, witness_of, sign_input, sign_inputs, validate, sign,
}
use jellyfishsdk.Signature.Signed.{IsValid}
use jellyfishsdk.Signature.Bytes.{outpoints, sequences}
use jellyfishsdk.Signature.Input.{program_of}

module _ {D : Type 0} ⦃sb : SmartBuffer⦄ (dftx : Codec D) where
  write_outpoints-outpoints :
      (vins : List (Vin D)) → All (IsVin dftx) vins → write_outpoints vins ≡ ok (outpoints vins)
  unfolding write_outpoints outpoints
  write_outpoints-outpoints [] h = refl
  write_outpoints-outpoints (vin ∷ rest) (h, hs) =
      rw (sb.write_uint32_le_lem vin.index h.1.0, write_outpoints-outpoints rest hs) refl

  write_sequences-sequences :
      (vins : List (Vin D)) → All (IsVin dftx) vins → write_sequences vins ≡ ok (sequences vins)
  unfolding write_sequences sequences
  write_sequences-sequences [] h = refl
  write_sequences-sequences (vin ∷ rest) (h, hs) =
      rw (sb.write_uint32_le_lem vin.sequence h.1.1.1, write_sequences-sequences rest hs) refl

digest-IsHexOf : ⦃ch : CreateHash⦄ (bs : List ℕ) → IsHexOf 32 (to_hex (d_sha256 bs))
digest-IsHexOf ⦃ch⦄ bs =
    let digest = ch.sha256 (ch.sha256 bs) in
    (
      to_hex-IsHex digest (ch.sha256_bytes (ch.sha256 bs)),
      omega (arith, length-to_hex digest, ch.sha256_length (ch.sha256 bs)),
    )

module _ {N D : Type 0} ⦃sb : SmartBuffer⦄ ⦃bn : BigNumber N⦄ ⦃ch : CreateHash⦄
    (dftx : Codec D) where
  -- An option that signs: it has a key, a script that fits is given or guessed, the value fits, and
  -- whatever is hashed is signed.
  abbrev pub IsUsable : SignInputOption N D → Type 0
  IsUsable option =
      (key : List ℕ) × (code : Script D) × (option.public_key ≡ ok key)
      × (get_script_code option.witness_script option.prevout.script option.public_key ≡ ok code)
      × IsWritableScript dftx code
      × IsAmount option.prevout.value
      × ((h : List ℕ) → (signature : List ℕ) × (option.sign h ≡ ok signature))

  abbrev IsProgram : WitnessProgram N D → Type 0
  IsProgram p =
      IsUint32 p.version
      × (IsHexOf 32 p.hash_prevouts
          × (IsHexOf 32 p.hash_sequence
              × (IsHexOf 32 p.outpoint_tx_id
                  × (IsUint32 p.outpoint_index
                      × (IsWritableScript dftx p.script_code
                          × (IsAmount p.value
                              × (IsUint32 p.sequence
                                  × (IsHexOf 32 p.hash_outputs
                                      × (IsUint32 p.lock_time × IsUint32 p.hash_type)))))))))

  c_witness_program-RoundTrip : RoundTrip (c_witness_program dftx) IsProgram
  unfolding c_witness_program
  c_witness_program-RoundTrip =
      record_of-RoundTrip _ _ _ _ (λ p. refl)
        (▹-RoundTrip _ _ uint32-RoundTrip (
          ▹-RoundTrip _ _ (hex-RoundTrip 32) (
            ▹-RoundTrip _ _ (hex-RoundTrip 32) (
              ▹-RoundTrip _ _ (hex_be_buffer_le-RoundTrip 32) (
                ▹-RoundTrip _ _ uint32-RoundTrip (
                  ▹-RoundTrip _ _ (script-RoundTrip dftx) (
                    ▹-RoundTrip _ _ (satoshi_as_big_number-RoundTrip N) (
                      ▹-RoundTrip _ _ uint32-RoundTrip (
                        ▹-RoundTrip _ _ (hex-RoundTrip 32)
                          (▹-RoundTrip _ _ uint32-RoundTrip uint32-RoundTrip))))))))))

  as_witness_program-total :
      (tx : Transaction N D) (vin : Vin D) (option : SignInputOption N D)
      → IsTransaction dftx tx
      → IsVin dftx vin
      → IsUsable option
      → (code : Script D) × (outputs : List ℕ) × (as_witness_program dftx tx vin option sighash_all
          ≡ ok (program_of dftx tx vin option.prevout.value code outputs))
        × IsProgram (program_of dftx tx vin option.prevout.value code outputs)
  unfolding as_witness_program hash_prevouts hash_sequence hash_outputs
  as_witness_program-total tx vin option h hv (key, code, hk, hc, fits, amount, signs) =
      let (c, ec, bytes, back) =
        array-RoundTrip (c_vout dftx tx.version) (IsVout dftx tx.version)
          (c_vout-RoundTrip dftx tx.version) (length tx.vout) tx.vout (h.1.1.0.0, refl) in
      (
        code,
        c,
        rw
            (
              write_outpoints-outpoints dftx tx.vin h.1.0.0,
              write_sequences-sequences dftx tx.vin h.1.0.0,
              hc,
              ec,
            )
            refl,
        (
          h.0,
          (
            digest-IsHexOf (outpoints tx.vin),
            (
              digest-IsHexOf (sequences tx.vin),
              (
                hv.0,
                (hv.1.0, (fits, (amount, (hv.1.1.1, (digest-IsHexOf c, (h.1.1.1, omega arith)))))),
              ),
            ),
          ),
        ),
      )

  sign_input-total :
      (tx : Transaction N D) (vin : Vin D) (option : SignInputOption N D)
      → IsTransaction dftx tx
      → IsVin dftx vin
      → IsUsable option
      → (w : Witness) × (sign_input dftx tx vin option sighash_all ≡ ok w)
  unfolding sign_input
  sign_input-total tx vin option h hv u =
      let (code, outputs, hp, fits) = as_witness_program-total tx vin option h hv u in
      let p = program_of dftx tx vin option.prevout.value code outputs in
      let (bs, hb, bytes, back) = c_witness_program-RoundTrip p fits in
      let (signature, hs) = u.6 (d_sha256 bs) in
      (witness_of (signature ++ sighash_all ∷ []) u.0, rw (hp, hb, hs, u.2) refl)

  sign_inputs-total :
      (tx : Transaction N D) (vins : List (Vin D)) (options : List (SignInputOption N D))
      → IsTransaction dftx tx
      → All (IsVin dftx) vins
      → All IsUsable options
      → length vins ≡ length options
      → (ws : List Witness) × (sign_inputs dftx tx vins options sighash_all ≡ ok ws)
  unfolding sign_inputs
  sign_inputs-total tx [] options h hv u e = ([], refl)
  sign_inputs-total tx (vin ∷ vins) [] h hv u e = absurd (omega arith)
  sign_inputs-total tx (vin ∷ vins) (option ∷ options) h hv u e =
      let (w, hw) = sign_input-total tx vin option h hv.0 u.0 in
      let (ws, hws) = sign_inputs-total tx vins options h hv.1 u.1 (omega arith) in
      (w ∷ ws, rw (hw, hws) refl)

  validate-ok :
      (tx : Transaction N D) (options : List (SignInputOption N D)) (option : SignOption)
      → IsValid dftx tx options option
      → validate dftx tx options option ≡ ok tt
  unfolding validate
  validate-ok tx options option (some_input, one_each, time) =
      rw time (ground (arith, some_input, one_each))

  -- A transaction whose fields fit and that is valid is signed without an error, with the hash type
  -- ALL, where each option is usable: it has a key, its script fits and is given or guessed, the
  -- value that is spent fits, and its signing does not fail.
  pub sign-total :
      (tx : Transaction N D) (options : List (SignInputOption N D)) (option : SignOption)
      → IsTransaction dftx tx
      → IsValid dftx tx options option
      → All IsUsable options
      → option.sig_hash_type ≡ sighash_all
      → (signed : TransactionSegWit N D) × (sign dftx tx options option ≡ ok signed)
  unfolding sign
  sign-total tx options option h valid usable all =
      let (ws, hws) = sign_inputs-total tx tx.vin options h h.1.0.0 usable valid.1 in
      (
        record {
          version = tx.version;
          marker = 0x00;
          flag = 0x01;
          vin = tx.vin;
          vout = tx.vout;
          witness = ws;
          lock_time = tx.lock_time;
        },
        rw (validate-ok tx options option valid, all, hws) refl,
      )
