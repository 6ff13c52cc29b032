-- ===== src/Dftx/Price.antt =====
-- packages/jellyfish-transaction/src/script/dftx/dftx_price.ts: the messages and their composers, over the
-- type N of amounts and the type S of scripts.
pub mod RoundTrip
use jellyfishsdk.Prelude.{List}
use jellyfishsdk.Platform.{SmartBuffer, BigNumber}
use jellyfishsdk.Buffer.Codec.{Codec, record_of, ◌▹◌}
use jellyfishsdk.Buffer.Hex.{Text}
use jellyfishsdk.Buffer.Amounts.{satoshi_as_big_number}
use jellyfishsdk.Buffer.Texts.{compact_size_utf8_be}
use jellyfishsdk.Buffer.Fields.{compact_size_array}

pub record CurrencyPair : Type 0 where
  pub token : Text
  pub currency : Text

-- `CCurrencyPair`
unfoldable pub c_currency_pair : ⦃sb : SmartBuffer⦄ → Codec CurrencyPair
c_currency_pair =
    record_of (λ m. (m.token, m.currency))
      (λ (token, currency). record { token = token; currency = currency })
      (compact_size_utf8_be ▹ compact_size_utf8_be)

pub record TokenAmount (N : Type 0) : Type 0 where
  pub currency : Text
  pub amount : N

-- `CTokenAmount`
unfoldable pub c_token_amount :
    {N : Type 0} ⦃sb : SmartBuffer⦄ ⦃bn : BigNumber N⦄ → Codec (TokenAmount N)
c_token_amount =
    record_of (λ m. (m.currency, m.amount))
      (λ (currency, amount). record { currency = currency; amount = amount })
      (compact_size_utf8_be ▹ satoshi_as_big_number)

pub record TokenPrice (N : Type 0) : Type 0 where
  pub token : Text
  pub prices : List (TokenAmount N)

-- `CTokenPrice`
unfoldable pub c_token_price :
    {N : Type 0} ⦃sb : SmartBuffer⦄ ⦃bn : BigNumber N⦄ → Codec (TokenPrice N)
c_token_price =
    record_of (λ m. (m.token, m.prices))
      (λ (token, prices). record { token = token; prices = prices })
      (compact_size_utf8_be ▹ compact_size_array c_token_amount)
