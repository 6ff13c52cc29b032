-- ===== src/Dftx/Message/Back/Masternode.antt =====
-- packages/jellyfish-transaction/src/script/dftx/dftx.ts: the messages of Dftx/Masternode.
use jellyfishsdk.Prelude.{refl}
use jellyfishsdk.Platform.{SmartBuffer, BigNumber}
use jellyfishsdk.Buffer.Codec.{Codec, RoundTrip}
use jellyfishsdk.Buffer.Codec.Ending.{RoundTrip-EndTrip}
use jellyfishsdk.Dftx.Masternode.{c_create_masternode, c_update_masternode, c_resign_masternode}
use jellyfishsdk.Dftx.Masternode.RoundTrip.{
  IsCreateMasternode, IsUpdateMasternode, IsResignMasternode, c_create_masternode-EndTrip,
  c_update_masternode-RoundTrip, c_resign_masternode-RoundTrip,
}
use jellyfishsdk.Dftx.Message.{type_of, create_masternode, update_masternode, resign_masternode}
use jellyfishsdk.Dftx.Message.Dispatch.{readers, find_reader}
use jellyfishsdk.Dftx.Message.Dispatch.{write_data}
use jellyfishsdk.Dftx.Masternode.{CreateMasternode, UpdateMasternode, ResignMasternode}
use jellyfishsdk.Dftx.Message.Back.{MessageBack, mapped_back}

module _ {N S : Type 0} ⦃sb : SmartBuffer⦄ ⦃bn : BigNumber N⦄ (c_script : Codec S)
    (IsWritten : S → Type 0) (script_back : RoundTrip c_script IsWritten) where
  pub create_masternode_back :
      (m : CreateMasternode)
      → IsCreateMasternode m
      → MessageBack {N = N} c_script IsWritten (create_masternode m)
  unfolding write_data type_of readers find_reader
  create_masternode_back m h =
      mapped_back {N = N} c_script IsWritten create_masternode c_create_masternode
        IsCreateMasternode c_create_masternode-EndTrip m h refl refl

  pub update_masternode_back :
      (m : UpdateMasternode)
      → IsUpdateMasternode m
      → MessageBack {N = N} c_script IsWritten (update_masternode m)
  unfolding write_data type_of readers find_reader
  update_masternode_back m h =
      mapped_back {N = N} c_script IsWritten update_masternode c_update_masternode
        IsUpdateMasternode (RoundTrip-EndTrip c_update_masternode c_update_masternode-RoundTrip) m h
        refl refl

  pub resign_masternode_back :
      (m : ResignMasternode)
      → IsResignMasternode m
      → MessageBack {N = N} c_script IsWritten (resign_masternode m)
  unfolding write_data type_of readers find_reader
  resign_masternode_back m h =
      mapped_back {N = N} c_script IsWritten resign_masternode c_resign_masternode
        IsResignMasternode (RoundTrip-EndTrip c_resign_masternode c_resign_masternode-RoundTrip) m h
        refl refl
