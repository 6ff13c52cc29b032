-- ===== src/Script/OpCode/RoundTrip.antt =====
-- packages/jellyfish-transaction/src/script/mapping.ts: `OP_CODES.fromBuffer` undoes
-- `OP_CODES.toBuffer`.
use jellyfishsdk.Prelude.{ℕ, ◌≤◌, ◌≡◌, arith, ◌⊎◌, inl, inr}
use jellyfishsdk.Prelude.{List, [], ◌∷◌, ◌++◌, length, All, All-append, append_assoc, false}
use jellyfishsdk.Prelude.{ne→==, suc, ok}
use jellyfishsdk.Platform.{IsByte, SmartBuffer}
use jellyfishsdk.Buffer.Codec.{Codec, RoundTrip, write_each, ReadBack, RoundTrip-ReadBack}
use jellyfishsdk.Buffer.CompactSize.{max_safe_integer, compact_size-RoundTrip}
use jellyfishsdk.Script.Codes.{control}
use jellyfishsdk.Script.Codes.Control.{op_return}
use jellyfishsdk.Script.PushData.{read_buffer-front}
use jellyfishsdk.Script.OpCode.{OpCode, static, defi_tx, op_code, is_defi_script, to_op_codes}
use jellyfishsdk.Script.OpCode.{read_op_codes, remap_defi_script, read_script, write_script, script}
use jellyfishsdk.Script.OpCode.Laws.{IsPlain, IsPushedDfTx, plain_back, defi_back}

module _ {D : Type 0} ⦃sb : SmartBuffer⦄ (dftx : Codec D) where
  -- Plain words that do not look like a DeFi transaction, or a DeFi transaction behind OP_RETURN
  -- with plain words after it.
  abbrev pub IsScript : List (OpCode D) → Type 0
  IsScript stack =
      All IsPlain stack × (is_defi_script stack ≡ false)
      ⊎ ((d : D) × (rest : List (OpCode D)) × (stack
            ≡ static (control op_return) ∷ defi_tx d ∷ rest)
          × IsPushedDfTx dftx d
          × All IsPlain rest)

  -- The bytes of the script have a length that JavaScript can count.
  abbrev pub HasSafeLength : List (OpCode D) → Type 0
  HasSafeLength stack =
      (bs : List ℕ) → write_each (op_code dftx) stack ≡ ok bs → length bs ≤ max_safe_integer

  script_back :
      (stack : List (OpCode D))
      → IsScript stack
      → (bs : List ℕ) × (write_each (op_code dftx) stack ≡ ok bs)
        × All IsByte bs
        × (to_op_codes dftx bs ≡ ok stack)
  script_back stack (inl (h, e)) = plain_back dftx stack h e
  script_back stack (inr (d, rest, e, hd, h)) = rw e (defi_back dftx d rest hd h)

  to_op_codes-nil : (stack : List (OpCode D)) → to_op_codes dftx [] ≡ ok stack → stack ≡ []
  unfolding to_op_codes read_op_codes remap_defi_script is_defi_script
  to_op_codes-nil stack e = cc (rw (sb.remaining_lem []) at e)

  read_script-sized :
      (bs rest : List ℕ) (stack : List (OpCode D)) (size : List ℕ)
      → ((r : List ℕ)
          → jellyfishsdk.Buffer.CompactSize.read_compact_size (size ++ r) ≡ ok (length bs, r))
      → to_op_codes dftx bs ≡ ok stack
      → read_script dftx ((size ++ bs) ++ rest) ≡ ok (stack, rest)
  unfolding read_script
  read_script-sized [] rest stack size r e =
      rw (append_assoc size [] rest, r rest, to_op_codes-nil stack e)
  read_script-sized (b ∷ bs) rest stack size r e = rw (
    append_assoc size (b ∷ bs) rest,
    r ((b ∷ bs) ++ rest),
    read_buffer-front (b ∷ bs) rest,
    ne→== (suc (length bs)) 0 (omega arith),
    e,
  )

  -- A script that fits is written as bytes and read back.
  pub script-RoundTrip : RoundTrip (script dftx) (λ stack. IsScript stack × HasSafeLength stack)
  unfolding write_script
  script-RoundTrip stack (h, safe) =
      let (bs, w, bytes, back) = script_back stack h in
      let (size, ws, sized, r) = compact_size-RoundTrip (length bs) (safe bs w) in
      (
        size ++ bs,
        rw (w, ws),
        All-append IsByte size bs sized bytes,
        λ rest. read_script-sized bs rest stack size r back,
      )

  -- A script of plain words that is no DeFi script, or of OP_RETURN, a DeFi transaction that
  -- `CDfTx` reads back from its bytes, and plain words, is written as bytes and read back with
  -- whatever follows it, the transaction recognised again.
  pub script-ReadBack :
      (stack : List (OpCode D)) (rest : List ℕ)
      → IsScript stack
      → HasSafeLength stack
      → ReadBack (script dftx) stack rest
  script-ReadBack stack rest h safe =
      RoundTrip-ReadBack (script dftx) script-RoundTrip stack rest (h, safe)
