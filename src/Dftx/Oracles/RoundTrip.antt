-- ===== src/Dftx/Oracles/RoundTrip.antt =====
-- packages/jellyfish-transaction/src/script/dftx/dftx_oracles.ts: the messages are read back as written.
use jellyfishsdk.Prelude.{refl}
use jellyfishsdk.Platform.{SmartBuffer, BigNumber, IsByte}
use jellyfishsdk.Buffer.Codec.{Codec, RoundTrip, ▹-RoundTrip, record_of-RoundTrip}
use jellyfishsdk.Buffer.Words.{uint8-RoundTrip}
use jellyfishsdk.Buffer.Amounts.{IsUint64, big_number_uint64-RoundTrip}
use jellyfishsdk.Buffer.Fields.Laws.{
  IsHexOf, IsArray, hex_be_buffer_le-RoundTrip, compact_size_array-RoundTrip,
}
use jellyfishsdk.Dftx.Price.RoundTrip.{
  IsCurrencyPair, c_currency_pair-RoundTrip, IsTokenPrice, c_token_price-RoundTrip,
}
use jellyfishsdk.Dftx.Oracles.{
  AppointOracle, c_appoint_oracle, RemoveOracle, c_remove_oracle, UpdateOracle, c_update_oracle,
  SetOracleData, c_set_oracle_data,
}

abbrev pub IsAppointOracle : {S : Type 0} → (S → Type 0) → AppointOracle S → Type 0
IsAppointOracle IsWritten m =
    IsWritten m.script × (IsByte m.weightage × IsArray IsCurrencyPair m.price_feeds)

pub c_appoint_oracle-RoundTrip :
    {S : Type 0} ⦃sb : SmartBuffer⦄ (c_script : Codec S) (IsWritten : S → Type 0)
    → RoundTrip c_script IsWritten
    → RoundTrip (c_appoint_oracle c_script) (IsAppointOracle IsWritten)
unfolding c_appoint_oracle
c_appoint_oracle-RoundTrip c_script IsWritten script_back =
    record_of-RoundTrip _ _ _ _ (λ m. refl)
      (▹-RoundTrip _ _ script_back (
        ▹-RoundTrip _ _ uint8-RoundTrip
          (compact_size_array-RoundTrip _ _ c_currency_pair-RoundTrip)))

abbrev pub IsRemoveOracle : RemoveOracle → Type 0
IsRemoveOracle m = IsHexOf 32 m.oracle_id

pub c_remove_oracle-RoundTrip : ⦃sb : SmartBuffer⦄ → RoundTrip c_remove_oracle IsRemoveOracle
unfolding c_remove_oracle
c_remove_oracle-RoundTrip = record_of-RoundTrip _ _ _ _ (λ m. refl) (hex_be_buffer_le-RoundTrip 32)

abbrev pub IsUpdateOracle : {S : Type 0} → (S → Type 0) → UpdateOracle S → Type 0
IsUpdateOracle IsWritten m =
    IsHexOf 32 m.oracle_id
    × (IsWritten m.script × (IsByte m.weightage × IsArray IsCurrencyPair m.price_feeds))

pub c_update_oracle-RoundTrip :
    {S : Type 0} ⦃sb : SmartBuffer⦄ (c_script : Codec S) (IsWritten : S → Type 0)
    → RoundTrip c_script IsWritten
    → RoundTrip (c_update_oracle c_script) (IsUpdateOracle IsWritten)
unfolding c_update_oracle
c_update_oracle-RoundTrip c_script IsWritten script_back =
    record_of-RoundTrip _ _ _ _ (λ m. refl)
      (▹-RoundTrip _ _ (hex_be_buffer_le-RoundTrip 32) (
        ▹-RoundTrip _ _ script_back (
          ▹-RoundTrip _ _ uint8-RoundTrip
            (compact_size_array-RoundTrip _ _ c_currency_pair-RoundTrip))))

abbrev pub IsSetOracleData : {N : Type 0} ⦃bn : BigNumber N⦄ → SetOracleData N → Type 0
IsSetOracleData m = IsHexOf 32 m.oracle_id × (IsUint64 m.timestamp × IsArray IsTokenPrice m.tokens)

pub c_set_oracle_data-RoundTrip :
    (N : Type 0) ⦃sb : SmartBuffer⦄ ⦃bn : BigNumber N⦄
    → RoundTrip {A = SetOracleData N} c_set_oracle_data IsSetOracleData
unfolding c_set_oracle_data
c_set_oracle_data-RoundTrip N =
    record_of-RoundTrip _ _ _ _ (λ m. refl)
      (▹-RoundTrip _ _ (hex_be_buffer_le-RoundTrip 32) (
        ▹-RoundTrip _ _ (big_number_uint64-RoundTrip N)
          (compact_size_array-RoundTrip _ _ (c_token_price-RoundTrip N))))
