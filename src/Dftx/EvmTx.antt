-- ===== src/Dftx/EvmTx.antt =====
-- packages/jellyfish-transaction/src/script/dftx/dftx_evmtx.ts: the messages and their composers, over the
-- type N of amounts and the type S of scripts.
pub mod RoundTrip
use jellyfishsdk.Platform.{SmartBuffer}
use jellyfishsdk.Buffer.Codec.{Codec, record_of}
use jellyfishsdk.Buffer.Hex.{Text}
use jellyfishsdk.Buffer.Fields.{compact_size_hex}

pub record EvmTx : Type 0 where
  pub raw : Text

-- `CEvmTx`
unfoldable pub c_evm_tx : ⦃sb : SmartBuffer⦄ → Codec EvmTx
c_evm_tx = record_of (λ m. m.raw) (λ raw. record { raw = raw }) (compact_size_hex)
