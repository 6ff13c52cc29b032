-- ===== src/Dftx/EvmTx/RoundTrip.antt =====
-- packages/jellyfish-transaction/src/script/dftx/dftx_evmtx.ts: the messages are read back as written.
use jellyfishsdk.Prelude.{refl}
use jellyfishsdk.Platform.{SmartBuffer}
use jellyfishsdk.Buffer.Codec.{RoundTrip, record_of-RoundTrip}
use jellyfishsdk.Buffer.Fields.Laws.{IsSized, compact_size_hex-RoundTrip}
use jellyfishsdk.Dftx.EvmTx.{EvmTx, c_evm_tx}

abbrev pub IsEvmTx : EvmTx → Type 0
IsEvmTx m = IsSized m.raw

pub c_evm_tx-RoundTrip : ⦃sb : SmartBuffer⦄ → RoundTrip c_evm_tx IsEvmTx
unfolding c_evm_tx
c_evm_tx-RoundTrip = record_of-RoundTrip _ _ _ _ (λ m. refl) compact_size_hex-RoundTrip
