-- ===== src/Dftx/Message/Back/IcxOrderbook.antt =====
-- packages/jellyfish-transaction/src/script/dftx/dftx.ts: the messages of Dftx/IcxOrderbook.
use jellyfishsdk.Prelude.{refl}
use jellyfishsdk.Platform.{SmartBuffer, BigNumber}
use jellyfishsdk.Buffer.Codec.{Codec, RoundTrip}
use jellyfishsdk.Buffer.Codec.Ending.{RoundTrip-EndTrip}
use jellyfishsdk.Dftx.IcxOrderbook.{
  c_icx_create_order, c_icx_make_offer, c_icx_close_order, c_icx_close_offer, c_icx_submit_dfc_htlc,
  c_icx_submit_ext_htlc, c_icx_claim_dfc_htlc,
}
use jellyfishsdk.Dftx.IcxOrderbook.RoundTrip.{
  IsIcxCreateOrder, IsIcxMakeOffer, IsIcxCloseOrder, IsIcxCloseOffer, IsIcxSubmitDfcHtlc,
  IsIcxSubmitExtHtlc, IsIcxClaimDfcHtlc, c_icx_create_order-RoundTrip, c_icx_make_offer-RoundTrip,
  c_icx_close_order-RoundTrip, c_icx_close_offer-RoundTrip, c_icx_submit_dfc_htlc-RoundTrip,
  c_icx_submit_ext_htlc-RoundTrip, c_icx_claim_dfc_htlc-RoundTrip,
}
use jellyfishsdk.Dftx.Message.{
  type_of, icx_create_order, icx_make_offer, icx_close_order, icx_close_offer, icx_submit_dfc_htlc,
  icx_submit_ext_htlc, icx_claim_dfc_htlc,
}
use jellyfishsdk.Dftx.Message.Dispatch.{readers, find_reader}
use jellyfishsdk.Dftx.Message.Dispatch.{write_data}
use jellyfishsdk.Dftx.IcxOrderbook.{
  IcxCreateOrder, IcxMakeOffer, IcxCloseOrder, IcxCloseOffer, IcxSubmitDfcHtlc, IcxSubmitExtHtlc,
  IcxClaimDfcHtlc,
}
use jellyfishsdk.Dftx.Message.Back.{MessageBack, mapped_back}

module _ {N S : Type 0} ⦃sb : SmartBuffer⦄ ⦃bn : BigNumber N⦄ (c_script : Codec S)
    (IsWritten : S → Type 0) (script_back : RoundTrip c_script IsWritten) where
  pub icx_create_order_back :
      (m : IcxCreateOrder N S)
      → IsIcxCreateOrder IsWritten m
      → MessageBack {N = N} c_script IsWritten (icx_create_order m)
  unfolding write_data type_of readers find_reader
  icx_create_order_back m h =
      mapped_back {N = N} c_script IsWritten icx_create_order (c_icx_create_order c_script)
        (IsIcxCreateOrder IsWritten)
        (RoundTrip-EndTrip (c_icx_create_order c_script)
          (c_icx_create_order-RoundTrip N c_script IsWritten script_back))
        m h refl refl

  pub icx_make_offer_back :
      (m : IcxMakeOffer N S)
      → IsIcxMakeOffer IsWritten m
      → MessageBack {N = N} c_script IsWritten (icx_make_offer m)
  unfolding write_data type_of readers find_reader
  icx_make_offer_back m h =
      mapped_back {N = N} c_script IsWritten icx_make_offer (c_icx_make_offer c_script)
        (IsIcxMakeOffer IsWritten)
        (RoundTrip-EndTrip (c_icx_make_offer c_script)
          (c_icx_make_offer-RoundTrip N c_script IsWritten script_back))
        m h refl refl

  pub icx_close_order_back :
      (m : IcxCloseOrder)
      → IsIcxCloseOrder m
      → MessageBack {N = N} c_script IsWritten (icx_close_order m)
  unfolding write_data type_of readers find_reader
  icx_close_order_back m h =
      mapped_back {N = N} c_script IsWritten icx_close_order c_icx_close_order IsIcxCloseOrder
        (RoundTrip-EndTrip c_icx_close_order c_icx_close_order-RoundTrip) m h refl refl

  pub icx_close_offer_back :
      (m : IcxCloseOffer)
      → IsIcxCloseOffer m
      → MessageBack {N = N} c_script IsWritten (icx_close_offer m)
  unfolding write_data type_of readers find_reader
  icx_close_offer_back m h =
      mapped_back {N = N} c_script IsWritten icx_close_offer c_icx_close_offer IsIcxCloseOffer
        (RoundTrip-EndTrip c_icx_close_offer c_icx_close_offer-RoundTrip) m h refl refl

  pub icx_submit_dfc_htlc_back :
      (m : IcxSubmitDfcHtlc N)
      → IsIcxSubmitDfcHtlc m
      → MessageBack {N = N} c_script IsWritten (icx_submit_dfc_htlc m)
  unfolding write_data type_of readers find_reader
  icx_submit_dfc_htlc_back m h =
      mapped_back {N = N} c_script IsWritten icx_submit_dfc_htlc c_icx_submit_dfc_htlc
        IsIcxSubmitDfcHtlc
        (RoundTrip-EndTrip c_icx_submit_dfc_htlc (c_icx_submit_dfc_htlc-RoundTrip N)) m h refl refl

  pub icx_submit_ext_htlc_back :
      (m : IcxSubmitExtHtlc N)
      → IsIcxSubmitExtHtlc m
      → MessageBack {N = N} c_script IsWritten (icx_submit_ext_htlc m)
  unfolding write_data type_of readers find_reader
  icx_submit_ext_htlc_back m h =
      mapped_back {N = N} c_script IsWritten icx_submit_ext_htlc c_icx_submit_ext_htlc
        IsIcxSubmitExtHtlc
        (RoundTrip-EndTrip c_icx_submit_ext_htlc (c_icx_submit_ext_htlc-RoundTrip N)) m h refl refl

  pub icx_claim_dfc_htlc_back :
      (m : IcxClaimDfcHtlc)
      → IsIcxClaimDfcHtlc m
      → MessageBack {N = N} c_script IsWritten (icx_claim_dfc_htlc m)
  unfolding write_data type_of readers find_reader
  icx_claim_dfc_htlc_back m h =
      mapped_back {N = N} c_script IsWritten icx_claim_dfc_htlc c_icx_claim_dfc_htlc
        IsIcxClaimDfcHtlc (RoundTrip-EndTrip c_icx_claim_dfc_htlc c_icx_claim_dfc_htlc-RoundTrip) m
        h refl refl
