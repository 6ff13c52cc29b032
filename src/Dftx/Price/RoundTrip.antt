-- ===== src/Dftx/Price/RoundTrip.antt =====
-- packages/jellyfish-transaction/src/script/dftx/dftx_price.ts: the messages are read back as written.
use jellyfishsdk.Prelude.{refl}
use jellyfishsdk.Platform.{SmartBuffer, BigNumber}
use jellyfishsdk.Buffer.Codec.{RoundTrip, ▹-RoundTrip, record_of-RoundTrip}
use jellyfishsdk.Buffer.Amounts.{IsAmount, satoshi_as_big_number-RoundTrip}
use jellyfishsdk.Buffer.Texts.{IsString, compact_size_utf8_be-RoundTrip}
use jellyfishsdk.Buffer.Fields.Laws.{IsArray, compact_size_array-RoundTrip}
use jellyfishsdk.Dftx.Price.{
  CurrencyPair, c_currency_pair, TokenAmount, c_token_amount, TokenPrice, c_token_price,
}

abbrev pub IsCurrencyPair : CurrencyPair → Type 0
IsCurrencyPair m = IsString m.token × IsString m.currency

pub c_currency_pair-RoundTrip : ⦃sb : SmartBuffer⦄ → RoundTrip c_currency_pair IsCurrencyPair
unfolding c_currency_pair
c_currency_pair-RoundTrip =
    record_of-RoundTrip _ _ _ _ (λ m. refl)
      (▹-RoundTrip _ _ compact_size_utf8_be-RoundTrip compact_size_utf8_be-RoundTrip)

abbrev pub IsTokenAmount : {N : Type 0} ⦃bn : BigNumber N⦄ → TokenAmount N → Type 0
IsTokenAmount m = IsString m.currency × IsAmount m.amount

pub c_token_amount-RoundTrip :
    (N : Type 0) ⦃sb : SmartBuffer⦄ ⦃bn : BigNumber N⦄
    → RoundTrip {A = TokenAmount N} c_token_amount IsTokenAmount
unfolding c_token_amount
c_token_amount-RoundTrip N =
    record_of-RoundTrip _ _ _ _ (λ m. refl)
      (▹-RoundTrip _ _ compact_size_utf8_be-RoundTrip (satoshi_as_big_number-RoundTrip N))

abbrev pub IsTokenPrice : {N : Type 0} ⦃bn : BigNumber N⦄ → TokenPrice N → Type 0
IsTokenPrice m = IsString m.token × IsArray IsTokenAmount m.prices

pub c_token_price-RoundTrip :
    (N : Type 0) ⦃sb : SmartBuffer⦄ ⦃bn : BigNumber N⦄
    → RoundTrip {A = TokenPrice N} c_token_price IsTokenPrice
unfolding c_token_price
c_token_price-RoundTrip N =
    record_of-RoundTrip _ _ _ _ (λ m. refl)
      (▹-RoundTrip _ _ compact_size_utf8_be-RoundTrip
        (compact_size_array-RoundTrip _ _ (c_token_amount-RoundTrip N)))
