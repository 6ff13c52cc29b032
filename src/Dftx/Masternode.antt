-- ===== src/Dftx/Masternode.antt =====
-- packages/jellyfish-transaction/src/script/dftx/dftx_masternode.ts: the messages and their composers, over the
-- type N of amounts and the type S of scripts.
pub mod RoundTrip
use jellyfishsdk.Prelude.{ℕ, List, Option}
use jellyfishsdk.Platform.{SmartBuffer}
use jellyfishsdk.Buffer.Codec.{Codec, record_of, ◌▹◌}
use jellyfishsdk.Buffer.Codec.Ending.{trailing}
use jellyfishsdk.Buffer.Hex.{Text}
use jellyfishsdk.Buffer.Words.{uint8, uint16}
use jellyfishsdk.Buffer.Fields.{
  hex, hex_be_buffer_le, compact_size_optional_hex, compact_size_array,
}

pub record CreateMasternode : Type 0 where
  pub operator_type : ℕ
  pub operator_pub_key_hash : Text
  pub timelock : Option ℕ

-- `CCreateMasternode`
unfoldable pub c_create_masternode : ⦃sb : SmartBuffer⦄ → Codec CreateMasternode
c_create_masternode =
    record_of (λ m. (m.operator_type, (m.operator_pub_key_hash, m.timelock)))
      (λ (operator_type, (operator_pub_key_hash, timelock)). record {
        operator_type = operator_type;
        operator_pub_key_hash = operator_pub_key_hash;
        timelock = timelock;
      })
      (uint8 ▹ hex 20 ▹ trailing uint16)

pub record ResignMasternode : Type 0 where
  pub node_id : Text

-- `CResignMasternode`
unfoldable pub c_resign_masternode : ⦃sb : SmartBuffer⦄ → Codec ResignMasternode
c_resign_masternode =
    record_of (λ m. m.node_id) (λ node_id. record { node_id = node_id }) (hex_be_buffer_le 32)

pub record UpdateMasternodeAddress : Type 0 where
  pub address_type : ℕ
  pub address_pub_key_hash : Option Text

-- `CUpdateMasternodeAddress`
unfoldable pub c_update_masternode_address : ⦃sb : SmartBuffer⦄ → Codec UpdateMasternodeAddress
c_update_masternode_address =
    record_of (λ m. (m.address_type, m.address_pub_key_hash))
      (λ (address_type, address_pub_key_hash). record {
        address_type = address_type;
        address_pub_key_hash = address_pub_key_hash;
      })
      (uint8 ▹ compact_size_optional_hex)

pub record UpdateMasternodeData : Type 0 where
  pub update_type : ℕ
  pub address : UpdateMasternodeAddress

-- `CUpdateMasternodeData`
unfoldable pub c_update_masternode_data : ⦃sb : SmartBuffer⦄ → Codec UpdateMasternodeData
c_update_masternode_data =
    record_of (λ m. (m.update_type, m.address))
      (λ (update_type, address). record { update_type = update_type; address = address })
      (uint8 ▹ c_update_masternode_address)

pub record UpdateMasternode : Type 0 where
  pub node_id : Text
  pub updates : List UpdateMasternodeData

-- `CUpdateMasternode`
unfoldable pub c_update_masternode : ⦃sb : SmartBuffer⦄ → Codec UpdateMasternode
c_update_masternode =
    record_of (λ m. (m.node_id, m.updates))
      (λ (node_id, updates). record { node_id = node_id; updates = updates })
      (hex_be_buffer_le 32 ▹ compact_size_array c_update_masternode_data)
