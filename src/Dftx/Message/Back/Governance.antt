-- ===== src/Dftx/Message/Back/Governance.antt =====
-- packages/jellyfish-transaction/src/script/dftx/dftx.ts: the messages of Dftx/Governance.
use jellyfishsdk.Prelude.{refl}
use jellyfishsdk.Platform.{SmartBuffer, BigNumber}
use jellyfishsdk.Buffer.Codec.{Codec}
use jellyfishsdk.Dftx.Governance.{
  SetGovernance, SetGovernanceHeight, c_set_governance, c_set_governance_height,
}
use jellyfishsdk.Dftx.Governance.RoundTrip.{
  IsSetGovernance, IsSetGovernanceHeight, c_set_governance-EndTrip, c_set_governance_height-EndTrip,
}
use jellyfishsdk.Dftx.Message.{type_of, set_governance, set_governance_height}
use jellyfishsdk.Dftx.Message.Dispatch.{readers, find_reader, write_data}
use jellyfishsdk.Dftx.Message.Back.{MessageBack, mapped_back}

module _ {N S : Type 0} ⦃sb : SmartBuffer⦄ ⦃bn : BigNumber N⦄ (c_script : Codec S)
    (IsWritten : S → Type 0) where
  pub set_governance_back :
      (m : SetGovernance N)
      → IsSetGovernance m
      → MessageBack {N = N} c_script IsWritten (set_governance m)
  unfolding write_data type_of readers find_reader
  set_governance_back m h =
      mapped_back {N = N} c_script IsWritten set_governance c_set_governance IsSetGovernance
        (c_set_governance-EndTrip N) m h refl refl

  pub set_governance_height_back :
      (m : SetGovernanceHeight N)
      → IsSetGovernanceHeight m
      → MessageBack {N = N} c_script IsWritten (set_governance_height m)
  unfolding write_data type_of readers find_reader
  set_governance_height_back m h =
      mapped_back {N = N} c_script IsWritten set_governance_height c_set_governance_height
        IsSetGovernanceHeight (c_set_governance_height-EndTrip N) m h refl refl
