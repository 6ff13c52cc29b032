-- ===== src/Signature/Preimage.antt =====
-- packages/jellyfish-transaction-signature/src/tx_signature.ts: the bytes that are hashed for a
-- signature, against the layout of BIP 143.
use jellyfishsdk.Prelude.{
  ℕ, ◌≡◌, refl, sym, subst, ◌∙◌, arith, List, [], ◌∷◌, append-nil, not, ◌==◌, Result, ok, ◌>>=◌,
  >>=-eq-ok, sighash_unsupported,
}
use jellyfishsdk.Platform.{SmartBuffer, BigNumber}
use jellyfishsdk.Buffer.Codec.{Codec, record_of, write_each}
use jellyfishsdk.Buffer.Hex.{Text, to_hex, from_hex}
use jellyfishsdk.Buffer.Words.{bytes32}
use jellyfishsdk.Buffer.Amounts.{satoshi_as_big_number}
use jellyfishsdk.Buffer.Fields.{write_hex}
use jellyfishsdk.Script.OpCode.{write_script}
use jellyfishsdk.Tx.{Script, Vin, Transaction, c_vout}
use jellyfishsdk.Signature.{
  CreateHash, d_sha256, sighash_all, WitnessProgram, c_witness_program, write_outpoints,
  write_sequences, hash_all, hash_prevouts, hash_sequence, hash_outputs,
}
use mathlib.Core.List.{reverse}
use jellyfishsdk.Signature.Bytes.{
  concat, outpoints, sequences, write_uint32_le-ok, write_outpoints-ok, write_sequences-ok,
  throw_if-ok, write_hex-ok, write_hex_be-ok, join, ▹-ok,
}

module _ ⦃ch : CreateHash⦄ where
  hash_all-ok :
      (sig_hash_type : ℕ) (bytes : Result (List ℕ)) (hash : Text)
      → hash_all sig_hash_type bytes ≡ ok hash
      → (bs : List ℕ) × (sig_hash_type ≡ sighash_all)
        × (bytes ≡ ok bs)
        × (hash ≡ to_hex (d_sha256 bs))
  hash_all-ok sig_hash_type bytes hash h =
      let digest = (do bs ← bytes; ok (to_hex (d_sha256 bs))) in
      let (all, h') =
        throw_if-ok (not (sig_hash_type == sighash_all)) sighash_unsupported digest hash h in
      let (bs, hb, h'') = >>=-eq-ok bytes _ h' in (bs, ground (arith, all), hb, cc h'')

module _ ⦃sb : SmartBuffer⦄ ⦃ch : CreateHash⦄ where
  digest_hex :
      (a : List ℕ) (hash : Text) (bs : List ℕ)
      → hash ≡ to_hex (d_sha256 a)
      → write_hex 32 hash ≡ ok bs
      → bs ≡ d_sha256 a
  digest_hex a hash bs e h =
      write_hex-ok 32 (d_sha256 a) bs (ch.sha256_bytes (ch.sha256 a))
        (subst (λ t. write_hex 32 t ≡ ok bs) e h)

module _ {N D : Type 0} ⦃sb : SmartBuffer⦄ ⦃bn : BigNumber N⦄ ⦃ch : CreateHash⦄
    (dftx : Codec D) where
  -- The bytes that are signed for an input, with the script and the value of the output it spends:
  -- all outputs, the outpoints and sequence numbers of all inputs, and the input itself.
  abbrev pub IsPreimage : Transaction N D → Vin D → Script D → N → List ℕ → Type 0
  IsPreimage tx vin code value preimage =
      (outputs : List ℕ) × (script : List ℕ) × (amount : List ℕ) × (write_each
          (c_vout dftx tx.version) tx.vout
        ≡ ok outputs)
      × (write_script dftx code ≡ ok script)
      × (satoshi_as_big_number.to_buffer value ≡ ok amount)
      × (preimage
          ≡ concat (
              bytes32 tx.version
              ∷ d_sha256 (outpoints tx.vin)
              ∷ d_sha256 (sequences tx.vin)
              ∷ reverse (from_hex vin.txid)
              ∷ bytes32 vin.index
              ∷ script
              ∷ amount
              ∷ bytes32 vin.sequence
              ∷ d_sha256 outputs
              ∷ bytes32 tx.lock_time
              ∷ bytes32 sighash_all
              ∷ []))

  pub hash_prevouts-ok :
      (tx : Transaction N D) (t : ℕ) (hash : Text)
      → hash_prevouts dftx tx t ≡ ok hash
      → (t ≡ sighash_all) × (hash ≡ to_hex (d_sha256 (outpoints tx.vin)))
  unfolding hash_prevouts
  hash_prevouts-ok tx t hash h =
      let (bs, all, hb, e) = hash_all-ok t (write_outpoints tx.vin) hash h in
      (all, cc (e, write_outpoints-ok tx.vin bs hb))

  pub hash_sequence-ok :
      (tx : Transaction N D) (t : ℕ) (hash : Text)
      → hash_sequence dftx tx t ≡ ok hash
      → hash ≡ to_hex (d_sha256 (sequences tx.vin))
  unfolding hash_sequence
  hash_sequence-ok tx t hash h =
      let (bs, all, hb, e) = hash_all-ok t (write_sequences tx.vin) hash h in
      cc (e, write_sequences-ok tx.vin bs hb)

  pub hash_outputs-ok :
      (tx : Transaction N D) (t : ℕ) (hash : Text)
      → hash_outputs dftx tx t ≡ ok hash
      → (bs : List ℕ) × (write_each (c_vout dftx tx.version) tx.vout ≡ ok bs)
        × (hash ≡ to_hex (d_sha256 bs))
  unfolding hash_outputs
  hash_outputs-ok tx t hash h =
      let (bs, all, hb, e) = hash_all-ok t (write_each (c_vout dftx tx.version) tx.vout) hash h in
      (bs, hb, e)

  -- What the composer of a witness program writes, where its hashes are hex texts of digests.
  pub c_witness_program-bytes :
      (p : WitnessProgram N D) (a b c bs : List ℕ)
      → p.hash_prevouts ≡ to_hex (d_sha256 a)
      → p.hash_sequence ≡ to_hex (d_sha256 b)
      → p.hash_outputs ≡ to_hex (d_sha256 c)
      → (c_witness_program dftx).to_buffer p ≡ ok bs
      → (script : List ℕ) × (amount : List ℕ) × (write_script dftx p.script_code ≡ ok script)
        × (satoshi_as_big_number.to_buffer p.value ≡ ok amount)
        × (bs
            ≡ concat (
                bytes32 p.version
                ∷ d_sha256 a
                ∷ d_sha256 b
                ∷ reverse (from_hex p.outpoint_tx_id)
                ∷ bytes32 p.outpoint_index
                ∷ script
                ∷ amount
                ∷ bytes32 p.sequence
                ∷ d_sha256 c
                ∷ bytes32 p.lock_time
                ∷ bytes32 p.hash_type
                ∷ []))
  unfolding c_witness_program record_of
  c_witness_program-bytes p a b c bs ea eb ec h =
      let (x1, y1, w1, h1, e1) = ▹-ok _ _ _ _ bs h in
      let (x2, y2, w2, h2, e2) = ▹-ok _ _ _ _ y1 h1 in
      let (x3, y3, w3, h3, e3) = ▹-ok _ _ _ _ y2 h2 in
      let (x4, y4, w4, h4, e4) = ▹-ok _ _ _ _ y3 h3 in
      let (x5, y5, w5, h5, e5) = ▹-ok _ _ _ _ y4 h4 in
      let (x6, y6, w6, h6, e6) = ▹-ok _ _ _ _ y5 h5 in
      let (x7, y7, w7, h7, e7) = ▹-ok _ _ _ _ y6 h6 in
      let (x8, y8, w8, h8, e8) = ▹-ok _ _ _ _ y7 h7 in
      let (x9, y9, w9, h9, e9) = ▹-ok _ _ _ _ y8 h8 in
      let (x10, x11, w10, w11, e10) = ▹-ok _ _ _ _ y9 h9 in
      let q1 = write_uint32_le-ok p.version x1 w1 in
      let q2 = digest_hex a p.hash_prevouts x2 ea w2 in
      let q3 = digest_hex b p.hash_sequence x3 eb w3 in
      let q4 = write_hex_be-ok 32 p.outpoint_tx_id x4 w4 in
      let q5 = write_uint32_le-ok p.outpoint_index x5 w5 in
      let q8 = write_uint32_le-ok p.sequence x8 w8 in
      let q9 = digest_hex c p.hash_outputs x9 ec w9 in
      let q10 = write_uint32_le-ok p.lock_time x10 w10 in
      let q11 = write_uint32_le-ok p.hash_type x11 w11 in
      (
        x6,
        x7,
        w6,
        w7,
        join e1 q1 (
            join e2 q2 (
              join e3 q3 (
                join e4 q4 (
                  join e5 q5 (
                    join e6 refl (
                      join e7 refl
                        (join e8 q8 (join e9 q9 (join e10 q10 (q11 ∙ sym (append-nil _))))))))))),
      )
