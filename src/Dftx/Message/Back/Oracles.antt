-- ===== src/Dftx/Message/Back/Oracles.antt =====
-- packages/jellyfish-transaction/src/script/dftx/dftx.ts: the messages of Dftx/Oracles.
use jellyfishsdk.Prelude.{refl}
use jellyfishsdk.Platform.{SmartBuffer, BigNumber}
use jellyfishsdk.Buffer.Codec.{Codec, RoundTrip}
use jellyfishsdk.Buffer.Codec.Ending.{RoundTrip-EndTrip}
use jellyfishsdk.Dftx.Oracles.{
  c_appoint_oracle, c_remove_oracle, c_update_oracle, c_set_oracle_data,
}
use jellyfishsdk.Dftx.Oracles.RoundTrip.{
  IsAppointOracle, IsRemoveOracle, IsUpdateOracle, IsSetOracleData, c_appoint_oracle-RoundTrip,
  c_remove_oracle-RoundTrip, c_update_oracle-RoundTrip, c_set_oracle_data-RoundTrip,
}
use jellyfishsdk.Dftx.Message.{
  type_of, appoint_oracle, remove_oracle, update_oracle, set_oracle_data,
}
use jellyfishsdk.Dftx.Message.Dispatch.{readers, find_reader}
use jellyfishsdk.Dftx.Message.Dispatch.{write_data}
use jellyfishsdk.Dftx.Oracles.{AppointOracle, RemoveOracle, UpdateOracle, SetOracleData}
use jellyfishsdk.Dftx.Message.Back.{MessageBack, mapped_back}

module _ {N S : Type 0} ⦃sb : SmartBuffer⦄ ⦃bn : BigNumber N⦄ (c_script : Codec S)
    (IsWritten : S → Type 0) (script_back : RoundTrip c_script IsWritten) where
  pub appoint_oracle_back :
      (m : AppointOracle S)
      → IsAppointOracle IsWritten m
      → MessageBack {N = N} c_script IsWritten (appoint_oracle m)
  unfolding write_data type_of readers find_reader
  appoint_oracle_back m h =
      mapped_back {N = N} c_script IsWritten appoint_oracle (c_appoint_oracle c_script)
        (IsAppointOracle IsWritten)
        (RoundTrip-EndTrip (c_appoint_oracle c_script)
          (c_appoint_oracle-RoundTrip c_script IsWritten script_back))
        m h refl refl

  pub remove_oracle_back :
      (m : RemoveOracle)
      → IsRemoveOracle m
      → MessageBack {N = N} c_script IsWritten (remove_oracle m)
  unfolding write_data type_of readers find_reader
  remove_oracle_back m h =
      mapped_back {N = N} c_script IsWritten remove_oracle c_remove_oracle IsRemoveOracle
        (RoundTrip-EndTrip c_remove_oracle c_remove_oracle-RoundTrip) m h refl refl

  pub update_oracle_back :
      (m : UpdateOracle S)
      → IsUpdateOracle IsWritten m
      → MessageBack {N = N} c_script IsWritten (update_oracle m)
  unfolding write_data type_of readers find_reader
  update_oracle_back m h =
      mapped_back {N = N} c_script IsWritten update_oracle (c_update_oracle c_script)
        (IsUpdateOracle IsWritten)
        (RoundTrip-EndTrip (c_update_oracle c_script)
          (c_update_oracle-RoundTrip c_script IsWritten script_back))
        m h refl refl

  pub set_oracle_data_back :
      (m : SetOracleData N)
      → IsSetOracleData m
      → MessageBack {N = N} c_script IsWritten (set_oracle_data m)
  unfolding write_data type_of readers find_reader
  set_oracle_data_back m h =
      mapped_back {N = N} c_script IsWritten set_oracle_data c_set_oracle_data IsSetOracleData
        (RoundTrip-EndTrip c_set_oracle_data (c_set_oracle_data-RoundTrip N)) m h refl refl
