-- ===== src/Dftx/Unmapped.antt =====
-- packages/jellyfish-transaction/src/script/dftx: dftx_unmapped.ts and dftx_misc.ts.
use jellyfishsdk.Prelude.{refl, length, ok, take-length, drop-length}
use jellyfishsdk.Platform.{SmartBuffer}
use jellyfishsdk.Buffer.Codec.{Codec, record_of, empty}
use jellyfishsdk.Buffer.Codec.Ending.{EndTrip, record_of-EndTrip}
use jellyfishsdk.Buffer.Hex.{Text, IsHex, to_hex, from_hex, from_hex_inverse}

pub record DefiOpUnmapped : Type 0 where
  pub hex : Text

module _ ⦃sb : SmartBuffer⦄ where
  -- `readBuffer(buffer.remaining())` and `writeString(op.hex, 'hex')`
  abbrev pub all_remaining : Codec Text
  all_remaining = record {
    from_buffer =
        λ bs. let (buff, rest) = sb.read_buffer (sb.remaining bs) bs in ok (to_hex buff, rest);
    to_buffer = λ hex. ok (from_hex hex);
  }

  -- `CDeFiOpUnmapped`
  unfoldable pub c_defi_op_unmapped : Codec DefiOpUnmapped
  c_defi_op_unmapped = record_of (λ m. m.hex) (λ text. record { hex = text }) all_remaining

  -- `CAutoAuthPrep`
  abbrev pub c_auto_auth_prep : Codec (Unit {0})
  c_auto_auth_prep = empty

  all_remaining-EndTrip : EndTrip all_remaining IsHex
  all_remaining-EndTrip t h =
      let (same, bytes, len) = from_hex_inverse t h in
      (
        from_hex t,
        refl,
        bytes,
        rw (
          sb.remaining_lem (from_hex t),
          sb.read_buffer_lem (length (from_hex t)) (from_hex t),
          take-length (from_hex t),
          drop-length (from_hex t),
          same,
        ),
      )

  pub c_defi_op_unmapped-EndTrip : EndTrip c_defi_op_unmapped (λ m. IsHex m.hex)
  unfolding c_defi_op_unmapped
  c_defi_op_unmapped-EndTrip = record_of-EndTrip _ _ _ _ (λ m. refl) all_remaining-EndTrip
