-- ===== src/Dftx/Masternode/RoundTrip.antt =====
-- packages/jellyfish-transaction/src/script/dftx/dftx_masternode.ts: the messages are read back as written.
use jellyfishsdk.Prelude.{refl}
use jellyfishsdk.Platform.{SmartBuffer, IsByte}
use jellyfishsdk.Buffer.Codec.{RoundTrip, ▹-RoundTrip, record_of-RoundTrip}
use jellyfishsdk.Buffer.Codec.Ending.{EndTrip, IsPresent, ▹-EndTrip, record_of-EndTrip}
use jellyfishsdk.Buffer.Words.{uint8-RoundTrip}
use jellyfishsdk.Buffer.Fields.Laws.{
  IsHexOf, IsOptionalSized, IsArray, hex-RoundTrip, hex_be_buffer_le-RoundTrip,
  compact_size_optional_hex-RoundTrip, compact_size_array-RoundTrip,
}
use jellyfishsdk.Dftx.Fits.{IsUint16, trailing-uint16-EndTrip}
use jellyfishsdk.Dftx.Masternode.{
  CreateMasternode, c_create_masternode, ResignMasternode, c_resign_masternode,
  UpdateMasternodeAddress, c_update_masternode_address, UpdateMasternodeData,
  c_update_masternode_data, UpdateMasternode, c_update_masternode,
}

abbrev pub IsCreateMasternode : CreateMasternode → Type 0
IsCreateMasternode m =
    IsByte m.operator_type × (IsHexOf 20 m.operator_pub_key_hash × IsPresent IsUint16 m.timelock)

pub c_create_masternode-EndTrip :
    ⦃sb : SmartBuffer⦄ → EndTrip c_create_masternode IsCreateMasternode
unfolding c_create_masternode
c_create_masternode-EndTrip =
    record_of-EndTrip _ _ _ _ (λ m. refl)
      (▹-EndTrip _ _ uint8-RoundTrip (▹-EndTrip _ _ (hex-RoundTrip 20) trailing-uint16-EndTrip))

abbrev pub IsResignMasternode : ResignMasternode → Type 0
IsResignMasternode m = IsHexOf 32 m.node_id

pub c_resign_masternode-RoundTrip :
    ⦃sb : SmartBuffer⦄ → RoundTrip c_resign_masternode IsResignMasternode
unfolding c_resign_masternode
c_resign_masternode-RoundTrip =
    record_of-RoundTrip _ _ _ _ (λ m. refl) (hex_be_buffer_le-RoundTrip 32)

abbrev pub IsUpdateMasternodeAddress : UpdateMasternodeAddress → Type 0
IsUpdateMasternodeAddress m = IsByte m.address_type × IsOptionalSized m.address_pub_key_hash

pub c_update_masternode_address-RoundTrip :
    ⦃sb : SmartBuffer⦄ → RoundTrip c_update_masternode_address IsUpdateMasternodeAddress
unfolding c_update_masternode_address
c_update_masternode_address-RoundTrip =
    record_of-RoundTrip _ _ _ _ (λ m. refl)
      (▹-RoundTrip _ _ uint8-RoundTrip compact_size_optional_hex-RoundTrip)

abbrev pub IsUpdateMasternodeData : UpdateMasternodeData → Type 0
IsUpdateMasternodeData m = IsByte m.update_type × IsUpdateMasternodeAddress m.address

pub c_update_masternode_data-RoundTrip :
    ⦃sb : SmartBuffer⦄ → RoundTrip c_update_masternode_data IsUpdateMasternodeData
unfolding c_update_masternode_data
c_update_masternode_data-RoundTrip =
    record_of-RoundTrip _ _ _ _ (λ m. refl)
      (▹-RoundTrip _ _ uint8-RoundTrip c_update_masternode_address-RoundTrip)

abbrev pub IsUpdateMasternode : UpdateMasternode → Type 0
IsUpdateMasternode m = IsHexOf 32 m.node_id × IsArray IsUpdateMasternodeData m.updates

pub c_update_masternode-RoundTrip :
    ⦃sb : SmartBuffer⦄ → RoundTrip c_update_masternode IsUpdateMasternode
unfolding c_update_masternode
c_update_masternode-RoundTrip =
    record_of-RoundTrip _ _ _ _ (λ m. refl)
      (▹-RoundTrip _ _ (hex_be_buffer_le-RoundTrip 32)
        (compact_size_array-RoundTrip _ _ c_update_masternode_data-RoundTrip))
