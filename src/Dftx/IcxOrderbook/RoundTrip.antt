-- ===== src/Dftx/IcxOrderbook/RoundTrip.antt =====
-- packages/jellyfish-transaction/src/script/dftx/dftx_icxorderbook.ts: the messages are read back as written.
use jellyfishsdk.Prelude.{refl}
use jellyfishsdk.Platform.{SmartBuffer, BigNumber, IsByte}
use jellyfishsdk.Buffer.Codec.{Codec, RoundTrip, ▹-RoundTrip, record_of-RoundTrip}
use jellyfishsdk.Buffer.Words.{uint8-RoundTrip, uint32-RoundTrip}
use jellyfishsdk.Buffer.VarInt.Inverse.{var_int-RoundTrip}
use jellyfishsdk.Buffer.Amounts.{IsAmount, satoshi_as_big_number-RoundTrip}
use jellyfishsdk.Buffer.Texts.{IsString, compact_size_utf8_be-RoundTrip}
use jellyfishsdk.Buffer.Fields.Laws.{
  IsHexOf, IsSized, IsOptionalSized, hex_be_buffer_le-RoundTrip, compact_size_hex-RoundTrip,
  compact_size_optional_hex-RoundTrip,
}
use jellyfishsdk.Dftx.Fits.{IsUint32, IsSafe}
use jellyfishsdk.Dftx.IcxOrderbook.{
  IcxCreateOrder, c_icx_create_order, IcxMakeOffer, c_icx_make_offer, IcxSubmitDfcHtlc,
  c_icx_submit_dfc_htlc, IcxSubmitExtHtlc, c_icx_submit_ext_htlc, IcxClaimDfcHtlc,
  c_icx_claim_dfc_htlc, IcxCloseOrder, c_icx_close_order, IcxCloseOffer, c_icx_close_offer,
}

abbrev pub IsIcxCreateOrder :
    {N S : Type 0} ⦃bn : BigNumber N⦄ → (S → Type 0) → IcxCreateOrder N S → Type 0
IsIcxCreateOrder IsWritten m =
    IsByte m.order_type
    × (IsSafe m.token_id
        × (IsWritten m.owner_address
            × (IsOptionalSized m.receive_pubkey
                × (IsAmount m.amount_from
                    × (IsAmount m.amount_to_fill × (IsAmount m.order_price × IsUint32 m.expiry))))))

pub c_icx_create_order-RoundTrip :
    (N : Type 0) {S : Type 0} ⦃sb : SmartBuffer⦄ ⦃bn : BigNumber N⦄ (c_script : Codec S)
    (IsWritten : S → Type 0)
    → RoundTrip c_script IsWritten
    → RoundTrip {A = IcxCreateOrder N S} (c_icx_create_order c_script) (IsIcxCreateOrder IsWritten)
unfolding c_icx_create_order
c_icx_create_order-RoundTrip N c_script IsWritten script_back =
    record_of-RoundTrip _ _ _ _ (λ m. refl)
      (▹-RoundTrip _ _ uint8-RoundTrip (
        ▹-RoundTrip _ _ var_int-RoundTrip (
          ▹-RoundTrip _ _ script_back (
            ▹-RoundTrip _ _ compact_size_optional_hex-RoundTrip (
              ▹-RoundTrip _ _ (satoshi_as_big_number-RoundTrip N) (
                ▹-RoundTrip _ _ (satoshi_as_big_number-RoundTrip N)
                  (▹-RoundTrip _ _ (satoshi_as_big_number-RoundTrip N) uint32-RoundTrip)))))))

abbrev pub IsIcxMakeOffer :
    {N S : Type 0} ⦃bn : BigNumber N⦄ → (S → Type 0) → IcxMakeOffer N S → Type 0
IsIcxMakeOffer IsWritten m =
    IsHexOf 32 m.order_tx
    × (IsAmount m.amount
        × (IsWritten m.owner_address
            × (IsOptionalSized m.receive_pubkey × (IsUint32 m.expiry × IsAmount m.taker_fee))))

pub c_icx_make_offer-RoundTrip :
    (N : Type 0) {S : Type 0} ⦃sb : SmartBuffer⦄ ⦃bn : BigNumber N⦄ (c_script : Codec S)
    (IsWritten : S → Type 0)
    → RoundTrip c_script IsWritten
    → RoundTrip {A = IcxMakeOffer N S} (c_icx_make_offer c_script) (IsIcxMakeOffer IsWritten)
unfolding c_icx_make_offer
c_icx_make_offer-RoundTrip N c_script IsWritten script_back =
    record_of-RoundTrip _ _ _ _ (λ m. refl)
      (▹-RoundTrip _ _ (hex_be_buffer_le-RoundTrip 32) (
        ▹-RoundTrip _ _ (satoshi_as_big_number-RoundTrip N) (
          ▹-RoundTrip _ _ script_back (
            ▹-RoundTrip _ _ compact_size_optional_hex-RoundTrip
              (▹-RoundTrip _ _ uint32-RoundTrip (satoshi_as_big_number-RoundTrip N))))))

abbrev pub IsIcxSubmitDfcHtlc : {N : Type 0} ⦃bn : BigNumber N⦄ → IcxSubmitDfcHtlc N → Type 0
IsIcxSubmitDfcHtlc m =
    IsHexOf 32 m.offer_tx × (IsAmount m.amount × (IsHexOf 32 m.hash × IsUint32 m.timeout))

pub c_icx_submit_dfc_htlc-RoundTrip :
    (N : Type 0) ⦃sb : SmartBuffer⦄ ⦃bn : BigNumber N⦄
    → RoundTrip {A = IcxSubmitDfcHtlc N} c_icx_submit_dfc_htlc IsIcxSubmitDfcHtlc
unfolding c_icx_submit_dfc_htlc
c_icx_submit_dfc_htlc-RoundTrip N =
    record_of-RoundTrip _ _ _ _ (λ m. refl)
      (▹-RoundTrip _ _ (hex_be_buffer_le-RoundTrip 32) (
        ▹-RoundTrip _ _ (satoshi_as_big_number-RoundTrip N)
          (▹-RoundTrip _ _ (hex_be_buffer_le-RoundTrip 32) uint32-RoundTrip)))

abbrev pub IsIcxSubmitExtHtlc : {N : Type 0} ⦃bn : BigNumber N⦄ → IcxSubmitExtHtlc N → Type 0
IsIcxSubmitExtHtlc m =
    IsHexOf 32 m.offer_tx
    × (IsAmount m.amount
        × (IsHexOf 32 m.hash
            × (IsString m.htlc_script_address × (IsSized m.owner_pubkey × IsUint32 m.timeout))))

pub c_icx_submit_ext_htlc-RoundTrip :
    (N : Type 0) ⦃sb : SmartBuffer⦄ ⦃bn : BigNumber N⦄
    → RoundTrip {A = IcxSubmitExtHtlc N} c_icx_submit_ext_htlc IsIcxSubmitExtHtlc
unfolding c_icx_submit_ext_htlc
c_icx_submit_ext_htlc-RoundTrip N =
    record_of-RoundTrip _ _ _ _ (λ m. refl)
      (▹-RoundTrip _ _ (hex_be_buffer_le-RoundTrip 32) (
        ▹-RoundTrip _ _ (satoshi_as_big_number-RoundTrip N) (
          ▹-RoundTrip _ _ (hex_be_buffer_le-RoundTrip 32) (
            ▹-RoundTrip _ _ compact_size_utf8_be-RoundTrip
              (▹-RoundTrip _ _ compact_size_hex-RoundTrip uint32-RoundTrip)))))

abbrev pub IsIcxClaimDfcHtlc : IcxClaimDfcHtlc → Type 0
IsIcxClaimDfcHtlc m = IsHexOf 32 m.dfc_htlc_tx × IsSized m.seed

pub c_icx_claim_dfc_htlc-RoundTrip :
    ⦃sb : SmartBuffer⦄ → RoundTrip c_icx_claim_dfc_htlc IsIcxClaimDfcHtlc
unfolding c_icx_claim_dfc_htlc
c_icx_claim_dfc_htlc-RoundTrip =
    record_of-RoundTrip _ _ _ _ (λ m. refl)
      (▹-RoundTrip _ _ (hex_be_buffer_le-RoundTrip 32) compact_size_hex-RoundTrip)

abbrev pub IsIcxCloseOrder : IcxCloseOrder → Type 0
IsIcxCloseOrder m = IsHexOf 32 m.order_tx

pub c_icx_close_order-RoundTrip : ⦃sb : SmartBuffer⦄ → RoundTrip c_icx_close_order IsIcxCloseOrder
unfolding c_icx_close_order
c_icx_close_order-RoundTrip =
    record_of-RoundTrip _ _ _ _ (λ m. refl) (hex_be_buffer_le-RoundTrip 32)

abbrev pub IsIcxCloseOffer : IcxCloseOffer → Type 0
IsIcxCloseOffer m = IsHexOf 32 m.offer_tx

pub c_icx_close_offer-RoundTrip : ⦃sb : SmartBuffer⦄ → RoundTrip c_icx_close_offer IsIcxCloseOffer
unfolding c_icx_close_offer
c_icx_close_offer-RoundTrip =
    record_of-RoundTrip _ _ _ _ (λ m. refl) (hex_be_buffer_le-RoundTrip 32)
