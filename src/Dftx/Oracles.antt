-- ===== src/Dftx/Oracles.antt =====
-- packages/jellyfish-transaction/src/script/dftx/dftx_oracles.ts: the messages and their composers, over the
-- type N of amounts and the type S of scripts.
pub mod RoundTrip
use jellyfishsdk.Prelude.{ℕ, List}
use jellyfishsdk.Platform.{SmartBuffer, BigNumber}
use jellyfishsdk.Buffer.Codec.{Codec, record_of, ◌▹◌}
use jellyfishsdk.Buffer.Hex.{Text}
use jellyfishsdk.Buffer.Words.{uint8}
use jellyfishsdk.Buffer.Amounts.{big_number_uint64}
use jellyfishsdk.Buffer.Fields.{hex_be_buffer_le, compact_size_array}
use jellyfishsdk.Dftx.Price.{CurrencyPair, c_currency_pair, TokenPrice, c_token_price}

pub record AppointOracle (S : Type 0) : Type 0 where
  pub script : S
  pub weightage : ℕ
  pub price_feeds : List CurrencyPair

-- `CAppointOracle`
unfoldable pub c_appoint_oracle :
    {S : Type 0} ⦃sb : SmartBuffer⦄ → Codec S → Codec (AppointOracle S)
c_appoint_oracle c_script =
    record_of (λ m. (m.script, (m.weightage, m.price_feeds)))
      (λ (script, (weightage, price_feeds)). record {
        script = script;
        weightage = weightage;
        price_feeds = price_feeds;
      })
      (c_script ▹ uint8 ▹ compact_size_array c_currency_pair)

pub record RemoveOracle : Type 0 where
  pub oracle_id : Text

-- `CRemoveOracle`
unfoldable pub c_remove_oracle : ⦃sb : SmartBuffer⦄ → Codec RemoveOracle
c_remove_oracle =
    record_of (λ m. m.oracle_id) (λ oracle_id. record { oracle_id = oracle_id })
      (hex_be_buffer_le 32)

pub record UpdateOracle (S : Type 0) : Type 0 where
  pub oracle_id : Text
  pub script : S
  pub weightage : ℕ
  pub price_feeds : List CurrencyPair

-- `CUpdateOracle`
unfoldable pub c_update_oracle : {S : Type 0} ⦃sb : SmartBuffer⦄ → Codec S → Codec (UpdateOracle S)
c_update_oracle c_script =
    record_of (λ m. (m.oracle_id, (m.script, (m.weightage, m.price_feeds))))
      (λ (oracle_id, (script, (weightage, price_feeds))). record {
        oracle_id = oracle_id;
        script = script;
        weightage = weightage;
        price_feeds = price_feeds;
      })
      (hex_be_buffer_le 32 ▹ c_script ▹ uint8 ▹ compact_size_array c_currency_pair)

pub record SetOracleData (N : Type 0) : Type 0 where
  pub oracle_id : Text
  pub timestamp : N
  pub tokens : List (TokenPrice N)

-- `CSetOracleData`
unfoldable pub c_set_oracle_data :
    {N : Type 0} ⦃sb : SmartBuffer⦄ ⦃bn : BigNumber N⦄ → Codec (SetOracleData N)
c_set_oracle_data =
    record_of (λ m. (m.oracle_id, (m.timestamp, m.tokens)))
      (λ (oracle_id, (timestamp, tokens)). record {
        oracle_id = oracle_id;
        timestamp = timestamp;
        tokens = tokens;
      })
      (hex_be_buffer_le 32 ▹ big_number_uint64 ▹ compact_size_array c_token_price)
