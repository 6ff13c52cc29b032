-- ===== src/Dftx/Loans/RoundTrip.antt =====
-- packages/jellyfish-transaction/src/script/dftx/dftx_loans.ts: the messages are read back as written.
use jellyfishsdk.Prelude.{refl}
use jellyfishsdk.Platform.{SmartBuffer, BigNumber}
use jellyfishsdk.Buffer.Codec.{Codec, RoundTrip, ▹-RoundTrip, record_of-RoundTrip}
use jellyfishsdk.Buffer.Words.{uint32-RoundTrip}
use jellyfishsdk.Buffer.VarInt.Inverse.{var_int-RoundTrip}
use jellyfishsdk.Buffer.Amounts.{
  IsAmount, IsUint64, satoshi_as_big_number-RoundTrip, big_number_uint64-RoundTrip,
}
use jellyfishsdk.Buffer.Texts.{IsString, compact_size_utf8_be-RoundTrip}
use jellyfishsdk.Buffer.Fields.Laws.{
  IsHexOf, IsArray, hex_be_buffer_le-RoundTrip, ubool8-RoundTrip, compact_size_array-RoundTrip,
}
use jellyfishsdk.Dftx.Fits.{IsUint32, IsSafe}
use jellyfishsdk.Dftx.Balance.RoundTrip.{IsTokenBalanceUint32, c_token_balance-RoundTrip}
use jellyfishsdk.Dftx.Price.RoundTrip.{IsCurrencyPair, c_currency_pair-RoundTrip}
use jellyfishsdk.Dftx.Loans.{
  SetLoanScheme, c_set_loan_scheme, DestroyLoanScheme, c_destroy_loan_scheme, SetDefaultLoanScheme,
  c_set_default_loan_scheme, SetCollateralToken, c_set_collateral_token, SetLoanToken,
  c_set_loan_token, UpdateLoanToken, c_update_loan_token, TakeLoan, c_take_loan, PaybackLoan,
  c_payback_loan, TokenPayback, c_token_payback, PaybackLoanV2, c_payback_loan_v2,
}

abbrev pub IsSetLoanScheme : {N : Type 0} ⦃bn : BigNumber N⦄ → SetLoanScheme N → Type 0
IsSetLoanScheme m =
    IsUint32 m.ratio × (IsAmount m.rate × (IsString m.identifier × IsUint64 m.update))

pub c_set_loan_scheme-RoundTrip :
    (N : Type 0) ⦃sb : SmartBuffer⦄ ⦃bn : BigNumber N⦄
    → RoundTrip {A = SetLoanScheme N} c_set_loan_scheme IsSetLoanScheme
unfolding c_set_loan_scheme
c_set_loan_scheme-RoundTrip N =
    record_of-RoundTrip _ _ _ _ (λ m. refl)
      (▹-RoundTrip _ _ uint32-RoundTrip (
        ▹-RoundTrip _ _ (satoshi_as_big_number-RoundTrip N)
          (▹-RoundTrip _ _ compact_size_utf8_be-RoundTrip (big_number_uint64-RoundTrip N))))

abbrev pub IsDestroyLoanScheme : {N : Type 0} ⦃bn : BigNumber N⦄ → DestroyLoanScheme N → Type 0
IsDestroyLoanScheme m = IsString m.identifier × IsUint64 m.height

pub c_destroy_loan_scheme-RoundTrip :
    (N : Type 0) ⦃sb : SmartBuffer⦄ ⦃bn : BigNumber N⦄
    → RoundTrip {A = DestroyLoanScheme N} c_destroy_loan_scheme IsDestroyLoanScheme
unfolding c_destroy_loan_scheme
c_destroy_loan_scheme-RoundTrip N =
    record_of-RoundTrip _ _ _ _ (λ m. refl)
      (▹-RoundTrip _ _ compact_size_utf8_be-RoundTrip (big_number_uint64-RoundTrip N))

abbrev pub IsSetDefaultLoanScheme : SetDefaultLoanScheme → Type 0
IsSetDefaultLoanScheme m = IsString m.identifier

pub c_set_default_loan_scheme-RoundTrip :
    ⦃sb : SmartBuffer⦄ → RoundTrip c_set_default_loan_scheme IsSetDefaultLoanScheme
unfolding c_set_default_loan_scheme
c_set_default_loan_scheme-RoundTrip =
    record_of-RoundTrip _ _ _ _ (λ m. refl) compact_size_utf8_be-RoundTrip

abbrev pub IsSetCollateralToken : {N : Type 0} ⦃bn : BigNumber N⦄ → SetCollateralToken N → Type 0
IsSetCollateralToken m =
    IsSafe m.token
    × (IsAmount m.factor × (IsCurrencyPair m.currency_pair × IsUint32 m.activate_after_block))

pub c_set_collateral_token-RoundTrip :
    (N : Type 0) ⦃sb : SmartBuffer⦄ ⦃bn : BigNumber N⦄
    → RoundTrip {A = SetCollateralToken N} c_set_collateral_token IsSetCollateralToken
unfolding c_set_collateral_token
c_set_collateral_token-RoundTrip N =
    record_of-RoundTrip _ _ _ _ (λ m. refl)
      (▹-RoundTrip _ _ var_int-RoundTrip (
        ▹-RoundTrip _ _ (satoshi_as_big_number-RoundTrip N)
          (▹-RoundTrip _ _ c_currency_pair-RoundTrip uint32-RoundTrip)))

abbrev pub IsSetLoanToken : {N : Type 0} ⦃bn : BigNumber N⦄ → SetLoanToken N → Type 0
IsSetLoanToken m =
    IsString m.symbol
    × (IsString m.name × (IsCurrencyPair m.currency_pair × (Unit {0} × IsAmount m.interest)))

pub c_set_loan_token-RoundTrip :
    (N : Type 0) ⦃sb : SmartBuffer⦄ ⦃bn : BigNumber N⦄
    → RoundTrip {A = SetLoanToken N} c_set_loan_token IsSetLoanToken
unfolding c_set_loan_token
c_set_loan_token-RoundTrip N =
    record_of-RoundTrip _ _ _ _ (λ m. refl)
      (▹-RoundTrip _ _ compact_size_utf8_be-RoundTrip (
        ▹-RoundTrip _ _ compact_size_utf8_be-RoundTrip (
          ▹-RoundTrip _ _ c_currency_pair-RoundTrip
            (▹-RoundTrip _ _ ubool8-RoundTrip (satoshi_as_big_number-RoundTrip N)))))

abbrev pub IsUpdateLoanToken : {N : Type 0} ⦃bn : BigNumber N⦄ → UpdateLoanToken N → Type 0
IsUpdateLoanToken m =
    IsString m.symbol
    × (IsString m.name
        × (IsCurrencyPair m.currency_pair
            × (Unit {0} × (IsAmount m.interest × IsHexOf 32 m.token_tx))))

pub c_update_loan_token-RoundTrip :
    (N : Type 0) ⦃sb : SmartBuffer⦄ ⦃bn : BigNumber N⦄
    → RoundTrip {A = UpdateLoanToken N} c_update_loan_token IsUpdateLoanToken
unfolding c_update_loan_token
c_update_loan_token-RoundTrip N =
    record_of-RoundTrip _ _ _ _ (λ m. refl)
      (▹-RoundTrip _ _ compact_size_utf8_be-RoundTrip (
        ▹-RoundTrip _ _ compact_size_utf8_be-RoundTrip (
          ▹-RoundTrip _ _ c_currency_pair-RoundTrip (
            ▹-RoundTrip _ _ ubool8-RoundTrip (
              ▹-RoundTrip _ _ (satoshi_as_big_number-RoundTrip N)
                (hex_be_buffer_le-RoundTrip 32))))))

abbrev pub IsTakeLoan : {N S : Type 0} ⦃bn : BigNumber N⦄ → (S → Type 0) → TakeLoan N S → Type 0
IsTakeLoan IsWritten m =
    IsHexOf 32 m.vault_id × (IsWritten m.to × IsArray IsTokenBalanceUint32 m.token_amounts)

pub c_take_loan-RoundTrip :
    (N : Type 0) {S : Type 0} ⦃sb : SmartBuffer⦄ ⦃bn : BigNumber N⦄ (c_script : Codec S)
    (IsWritten : S → Type 0)
    → RoundTrip c_script IsWritten
    → RoundTrip {A = TakeLoan N S} (c_take_loan c_script) (IsTakeLoan IsWritten)
unfolding c_take_loan
c_take_loan-RoundTrip N c_script IsWritten script_back =
    record_of-RoundTrip _ _ _ _ (λ m. refl)
      (▹-RoundTrip _ _ (hex_be_buffer_le-RoundTrip 32) (
        ▹-RoundTrip _ _ script_back
          (compact_size_array-RoundTrip _ _ (c_token_balance-RoundTrip N))))

abbrev pub IsPaybackLoan :
    {N S : Type 0} ⦃bn : BigNumber N⦄ → (S → Type 0) → PaybackLoan N S → Type 0
IsPaybackLoan IsWritten m =
    IsHexOf 32 m.vault_id × (IsWritten m.from × IsArray IsTokenBalanceUint32 m.token_amounts)

pub c_payback_loan-RoundTrip :
    (N : Type 0) {S : Type 0} ⦃sb : SmartBuffer⦄ ⦃bn : BigNumber N⦄ (c_script : Codec S)
    (IsWritten : S → Type 0)
    → RoundTrip c_script IsWritten
    → RoundTrip {A = PaybackLoan N S} (c_payback_loan c_script) (IsPaybackLoan IsWritten)
unfolding c_payback_loan
c_payback_loan-RoundTrip N c_script IsWritten script_back =
    record_of-RoundTrip _ _ _ _ (λ m. refl)
      (▹-RoundTrip _ _ (hex_be_buffer_le-RoundTrip 32) (
        ▹-RoundTrip _ _ script_back
          (compact_size_array-RoundTrip _ _ (c_token_balance-RoundTrip N))))

abbrev pub IsTokenPayback : {N : Type 0} ⦃bn : BigNumber N⦄ → TokenPayback N → Type 0
IsTokenPayback m = IsSafe m.dtoken × IsArray IsTokenBalanceUint32 m.amounts

pub c_token_payback-RoundTrip :
    (N : Type 0) ⦃sb : SmartBuffer⦄ ⦃bn : BigNumber N⦄
    → RoundTrip {A = TokenPayback N} c_token_payback IsTokenPayback
unfolding c_token_payback
c_token_payback-RoundTrip N =
    record_of-RoundTrip _ _ _ _ (λ m. refl)
      (▹-RoundTrip _ _ var_int-RoundTrip
        (compact_size_array-RoundTrip _ _ (c_token_balance-RoundTrip N)))

abbrev pub IsPaybackLoanV2 :
    {N S : Type 0} ⦃bn : BigNumber N⦄ → (S → Type 0) → PaybackLoanV2 N S → Type 0
IsPaybackLoanV2 IsWritten m =
    IsHexOf 32 m.vault_id × (IsWritten m.from × IsArray IsTokenPayback m.loans)

pub c_payback_loan_v2-RoundTrip :
    (N : Type 0) {S : Type 0} ⦃sb : SmartBuffer⦄ ⦃bn : BigNumber N⦄ (c_script : Codec S)
    (IsWritten : S → Type 0)
    → RoundTrip c_script IsWritten
    → RoundTrip {A = PaybackLoanV2 N S} (c_payback_loan_v2 c_script) (IsPaybackLoanV2 IsWritten)
unfolding c_payback_loan_v2
c_payback_loan_v2-RoundTrip N c_script IsWritten script_back =
    record_of-RoundTrip _ _ _ _ (λ m. refl)
      (▹-RoundTrip _ _ (hex_be_buffer_le-RoundTrip 32) (
        ▹-RoundTrip _ _ script_back
          (compact_size_array-RoundTrip _ _ (c_token_payback-RoundTrip N))))
