-- ===== src/Dftx/Message/Back/EvmTx.antt =====
-- packages/jellyfish-transaction/src/script/dftx/dftx.ts: the messages of Dftx/EvmTx.
use jellyfishsdk.Prelude.{refl}
use jellyfishsdk.Platform.{SmartBuffer, BigNumber}
use jellyfishsdk.Buffer.Codec.{Codec, RoundTrip}
use jellyfishsdk.Buffer.Codec.Ending.{RoundTrip-EndTrip}
use jellyfishsdk.Dftx.EvmTx.{c_evm_tx}
use jellyfishsdk.Dftx.EvmTx.RoundTrip.{IsEvmTx, c_evm_tx-RoundTrip}
use jellyfishsdk.Dftx.Message.{type_of, evm_tx}
use jellyfishsdk.Dftx.Message.Dispatch.{readers, find_reader}
use jellyfishsdk.Dftx.Message.Dispatch.{write_data}
use jellyfishsdk.Dftx.EvmTx.{EvmTx}
use jellyfishsdk.Dftx.Message.Back.{MessageBack, mapped_back}

module _ {N S : Type 0} ⦃sb : SmartBuffer⦄ ⦃bn : BigNumber N⦄ (c_script : Codec S)
    (IsWritten : S → Type 0) (script_back : RoundTrip c_script IsWritten) where
  pub evm_tx_back : (m : EvmTx) → IsEvmTx m → MessageBack {N = N} c_script IsWritten (evm_tx m)
  unfolding write_data type_of readers find_reader
  evm_tx_back m h =
      mapped_back {N = N} c_script IsWritten evm_tx c_evm_tx IsEvmTx
        (RoundTrip-EndTrip c_evm_tx c_evm_tx-RoundTrip) m h refl refl
