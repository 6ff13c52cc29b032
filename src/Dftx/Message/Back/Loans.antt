-- ===== src/Dftx/Message/Back/Loans.antt =====
-- packages/jellyfish-transaction/src/script/dftx/dftx.ts: the messages of Dftx/Loans.
use jellyfishsdk.Prelude.{refl}
use jellyfishsdk.Platform.{SmartBuffer, BigNumber}
use jellyfishsdk.Buffer.Codec.{Codec, RoundTrip}
use jellyfishsdk.Buffer.Codec.Ending.{RoundTrip-EndTrip}
use jellyfishsdk.Dftx.Loans.{
  c_set_loan_scheme, c_destroy_loan_scheme, c_set_default_loan_scheme, c_set_collateral_token,
  c_set_loan_token, c_update_loan_token, c_take_loan, c_payback_loan, c_payback_loan_v2,
}
use jellyfishsdk.Dftx.Loans.RoundTrip.{
  IsSetLoanScheme, IsDestroyLoanScheme, IsSetDefaultLoanScheme, IsSetCollateralToken,
  IsSetLoanToken, IsUpdateLoanToken, IsTakeLoan, IsPaybackLoan, IsPaybackLoanV2,
  c_set_loan_scheme-RoundTrip, c_destroy_loan_scheme-RoundTrip, c_set_default_loan_scheme-RoundTrip,
  c_set_collateral_token-RoundTrip, c_set_loan_token-RoundTrip, c_update_loan_token-RoundTrip,
  c_take_loan-RoundTrip, c_payback_loan-RoundTrip, c_payback_loan_v2-RoundTrip,
}
use jellyfishsdk.Dftx.Message.{
  type_of, set_loan_scheme, destroy_loan_scheme, set_default_loan_scheme, set_collateral_token,
  set_loan_token, update_loan_token, take_loan, payback_loan, payback_loan_v2,
}
use jellyfishsdk.Dftx.Message.Dispatch.{readers, find_reader}
use jellyfishsdk.Dftx.Message.Dispatch.{write_data}
use jellyfishsdk.Dftx.Loans.{
  SetLoanScheme, DestroyLoanScheme, SetDefaultLoanScheme, SetCollateralToken, SetLoanToken,
  UpdateLoanToken, TakeLoan, PaybackLoan, PaybackLoanV2,
}
use jellyfishsdk.Dftx.Message.Back.{MessageBack, mapped_back}

module _ {N S : Type 0} ⦃sb : SmartBuffer⦄ ⦃bn : BigNumber N⦄ (c_script : Codec S)
    (IsWritten : S → Type 0) (script_back : RoundTrip c_script IsWritten) where
  pub set_loan_scheme_back :
      (m : SetLoanScheme N)
      → IsSetLoanScheme m
      → MessageBack {N = N} c_script IsWritten (set_loan_scheme m)
  unfolding write_data type_of readers find_reader
  set_loan_scheme_back m h =
      mapped_back {N = N} c_script IsWritten set_loan_scheme c_set_loan_scheme IsSetLoanScheme
        (RoundTrip-EndTrip c_set_loan_scheme (c_set_loan_scheme-RoundTrip N)) m h refl refl

  pub destroy_loan_scheme_back :
      (m : DestroyLoanScheme N)
      → IsDestroyLoanScheme m
      → MessageBack {N = N} c_script IsWritten (destroy_loan_scheme m)
  unfolding write_data type_of readers find_reader
  destroy_loan_scheme_back m h =
      mapped_back {N = N} c_script IsWritten destroy_loan_scheme c_destroy_loan_scheme
        IsDestroyLoanScheme
        (RoundTrip-EndTrip c_destroy_loan_scheme (c_destroy_loan_scheme-RoundTrip N)) m h refl refl

  pub set_default_loan_scheme_back :
      (m : SetDefaultLoanScheme)
      → IsSetDefaultLoanScheme m
      → MessageBack {N = N} c_script IsWritten (set_default_loan_scheme m)
  unfolding write_data type_of readers find_reader
  set_default_loan_scheme_back m h =
      mapped_back {N = N} c_script IsWritten set_default_loan_scheme c_set_default_loan_scheme
        IsSetDefaultLoanScheme
        (RoundTrip-EndTrip c_set_default_loan_scheme c_set_default_loan_scheme-RoundTrip) m h refl
        refl

  pub set_collateral_token_back :
      (m : SetCollateralToken N)
      → IsSetCollateralToken m
      → MessageBack {N = N} c_script IsWritten (set_collateral_token m)
  unfolding write_data type_of readers find_reader
  set_collateral_token_back m h =
      mapped_back {N = N} c_script IsWritten set_collateral_token c_set_collateral_token
        IsSetCollateralToken
        (RoundTrip-EndTrip c_set_collateral_token (c_set_collateral_token-RoundTrip N)) m h refl
        refl

  pub set_loan_token_back :
      (m : SetLoanToken N)
      → IsSetLoanToken m
      → MessageBack {N = N} c_script IsWritten (set_loan_token m)
  unfolding write_data type_of readers find_reader
  set_loan_token_back m h =
      mapped_back {N = N} c_script IsWritten set_loan_token c_set_loan_token IsSetLoanToken
        (RoundTrip-EndTrip c_set_loan_token (c_set_loan_token-RoundTrip N)) m h refl refl

  pub update_loan_token_back :
      (m : UpdateLoanToken N)
      → IsUpdateLoanToken m
      → MessageBack {N = N} c_script IsWritten (update_loan_token m)
  unfolding write_data type_of readers find_reader
  update_loan_token_back m h =
      mapped_back {N = N} c_script IsWritten update_loan_token c_update_loan_token IsUpdateLoanToken
        (RoundTrip-EndTrip c_update_loan_token (c_update_loan_token-RoundTrip N)) m h refl refl

  pub take_loan_back :
      (m : TakeLoan N S)
      → IsTakeLoan IsWritten m
      → MessageBack {N = N} c_script IsWritten (take_loan m)
  unfolding write_data type_of readers find_reader
  take_loan_back m h =
      mapped_back {N = N} c_script IsWritten take_loan (c_take_loan c_script) (IsTakeLoan IsWritten)
        (RoundTrip-EndTrip (c_take_loan c_script)
          (c_take_loan-RoundTrip N c_script IsWritten script_back))
        m h refl refl

  pub payback_loan_back :
      (m : PaybackLoan N S)
      → IsPaybackLoan IsWritten m
      → MessageBack {N = N} c_script IsWritten (payback_loan m)
  unfolding write_data type_of readers find_reader
  payback_loan_back m h =
      mapped_back {N = N} c_script IsWritten payback_loan (c_payback_loan c_script)
        (IsPaybackLoan IsWritten)
        (RoundTrip-EndTrip (c_payback_loan c_script)
          (c_payback_loan-RoundTrip N c_script IsWritten script_back))
        m h refl refl

  pub payback_loan_v2_back :
      (m : PaybackLoanV2 N S)
      → IsPaybackLoanV2 IsWritten m
      → MessageBack {N = N} c_script IsWritten (payback_loan_v2 m)
  unfolding write_data type_of readers find_reader
  payback_loan_v2_back m h =
      mapped_back {N = N} c_script IsWritten payback_loan_v2 (c_payback_loan_v2 c_script)
        (IsPaybackLoanV2 IsWritten)
        (RoundTrip-EndTrip (c_payback_loan_v2 c_script)
          (c_payback_loan_v2-RoundTrip N c_script IsWritten script_back))
        m h refl refl
