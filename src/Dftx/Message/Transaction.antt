-- ===== src/Dftx/Message/Transaction.antt =====
-- packages/jellyfish-transaction/src/script/dftx/dftx.ts and index.ts: `CDfTx` reads back what it
-- has written, also from the script that carries it.
use jellyfishsdk.Prelude.{ℕ, ◌≤◌, ◌≡◌, refl, arith, List, [], ◌∷◌, length, true, All, ok, inr}
use jellyfishsdk.Platform.{IsByte, SmartBuffer, BigNumber}
use jellyfishsdk.Buffer.Codec.{Codec, RoundTrip, ReadBack}
use jellyfishsdk.Buffer.Codec.Ending.{EndBack}
use jellyfishsdk.Buffer.Hex.{to_hex, hex_digit}
use jellyfishsdk.Script.Codes.{control}
use jellyfishsdk.Script.Codes.Control.{op_return}
use jellyfishsdk.Script.OpCode.{OpCode, static, defi_tx, is_defi_hex, script}
use jellyfishsdk.Script.OpCode.Laws.{IsPlain, IsPushedDfTx}
use jellyfishsdk.Script.OpCode.RoundTrip.{HasSafeLength, script-ReadBack}
use jellyfishsdk.Dftx.Message.{DfTx, type_of}
use jellyfishsdk.Dftx.Message.Dispatch.{dftx_signature, read_dftx, write_dftx, c_dftx}
use jellyfishsdk.Dftx.Message.Fits.{IsMessage, type_of-lt}
use jellyfishsdk.Dftx.Message.RoundTrip.{message_back}

-- The hex of the bytes starts with the signature, and a type follows.
signed_hex :
    (n : ℕ) (body : List ℕ) → is_defi_hex (to_hex (0x44 ∷ 0x66 ∷ 0x54 ∷ 0x78 ∷ n ∷ body)) ≡ true
unfolding is_defi_hex to_hex hex_digit
signed_hex n body = ground arith

module _ {N S : Type 0} ⦃sb : SmartBuffer⦄ ⦃bn : BigNumber N⦄ (c_script : Codec S)
    (IsWritten : S → Type 0) where
  abbrev pub IsDfTx : DfTx N S → Type 0
  IsDfTx d = (d.signature ≡ dftx_signature) × IsMessage c_script IsWritten d.message

  -- The bytes of a DeFi transaction behind its signature and type.
  pub dftx_bytes :
      (d : DfTx N S)
      → RoundTrip c_script IsWritten
      → IsDfTx d
      → (body : List ℕ) × (write_dftx c_script d
          ≡ ok (0x44 ∷ 0x66 ∷ 0x54 ∷ 0x78 ∷ type_of d.message ∷ body))
        × All IsByte (0x44 ∷ 0x66 ∷ 0x54 ∷ 0x78 ∷ type_of d.message ∷ body)
        × (read_dftx c_script (0x44 ∷ 0x66 ∷ 0x54 ∷ 0x78 ∷ type_of d.message ∷ body) ≡ ok (d, []))
  unfolding write_dftx read_dftx
  dftx_bytes d script_back (e, h) =
      let (body, w, bytes, r) = message_back c_script IsWritten script_back d.message h in
      let byte = type_of-lt c_script IsWritten d.message h in
      (
        body,
        rw (
          e,
          sb.write_uint32_be_lem dftx_signature (omega arith),
          sb.write_uint8_lem (type_of d.message) byte,
          w,
        ),
        (omega arith, (omega arith, (omega arith, (omega arith, (byte, bytes))))),
        rw (
          sb.read_uint32_be_lem 0x44 0x66 0x54 0x78 (type_of d.message ∷ body),
          sb.read_uint8_lem (type_of d.message) body,
          r,
          e,
        ),
      )

  -- A DeFi transaction with the right signature whose message fits is written, as bytes, and
  -- `CDfTx` reads it back from them, leaving none: the type byte finds the composer of the message
  -- again. It assumes that the scripts inside of the message are read back; a governance variable
  -- with an unknown key does not fit.
  pub c_dftx-EndBack :
      (d : DfTx N S) → RoundTrip c_script IsWritten → IsDfTx d → EndBack (c_dftx c_script) d
  c_dftx-EndBack d script_back h =
      let (body, w, bytes, r) = dftx_bytes d script_back h in
      (0x44 ∷ 0x66 ∷ 0x54 ∷ 0x78 ∷ type_of d.message ∷ body, w, bytes, r)

  -- The transaction and its length bytes fit a push.
  abbrev pub IsPushable : DfTx N S → Type 0
  IsPushable d = (bs : List ℕ) → write_dftx c_script d ≡ ok bs → length bs ≤ 16777215

  pub c_dftx-IsPushedDfTx :
      (d : DfTx N S)
      → RoundTrip c_script IsWritten
      → IsDfTx d
      → IsPushable d
      → IsPushedDfTx (c_dftx c_script) d
  c_dftx-IsPushedDfTx d script_back h fits =
      let (body, w, bytes, r) = dftx_bytes d script_back h in
      (
        0x44 ∷ 0x66 ∷ 0x54 ∷ 0x78 ∷ type_of d.message ∷ body,
        w,
        bytes,
        r,
        signed_hex (type_of d.message) body,
        fits (0x44 ∷ 0x66 ∷ 0x54 ∷ 0x78 ∷ type_of d.message ∷ body) w,
      )

  -- A script of OP_RETURN, a DeFi transaction that fits and plain words is written, as bytes, and
  -- read back with whatever follows it: the transaction is recognised by its signature and its
  -- type byte, and its message is read again. It assumes that the scripts inside of the message
  -- are read back.
  pub defi_script-ReadBack :
      (d : DfTx N S) (rest : List (OpCode (DfTx N S))) (more : List ℕ)
      → RoundTrip c_script IsWritten
      → IsDfTx d
      → IsPushable d
      → All IsPlain rest
      → HasSafeLength (c_dftx c_script) (static (control op_return) ∷ defi_tx d ∷ rest)
      → ReadBack (script (c_dftx c_script)) (static (control op_return) ∷ defi_tx d ∷ rest) more
  defi_script-ReadBack d rest more script_back h fits plain safe =
      script-ReadBack (c_dftx c_script) (static (control op_return) ∷ defi_tx d ∷ rest) more
        (inr (d, rest, refl, c_dftx-IsPushedDfTx d script_back h fits, plain)) safe
