-- ===== src/Dftx/Message/Back/Vault.antt =====
-- packages/jellyfish-transaction/src/script/dftx/dftx.ts: the messages of Dftx/Vault.
use jellyfishsdk.Prelude.{refl}
use jellyfishsdk.Platform.{SmartBuffer, BigNumber}
use jellyfishsdk.Buffer.Codec.{Codec, RoundTrip}
use jellyfishsdk.Buffer.Codec.Ending.{RoundTrip-EndTrip}
use jellyfishsdk.Dftx.Vault.{
  c_create_vault, c_update_vault, c_deposit_to_vault, c_withdraw_from_vault, c_close_vault,
  c_place_auction_bid,
}
use jellyfishsdk.Dftx.Vault.RoundTrip.{
  IsCreateVault, IsUpdateVault, IsDepositToVault, IsWithdrawFromVault, IsCloseVault,
  IsPlaceAuctionBid, c_create_vault-RoundTrip, c_update_vault-RoundTrip,
  c_deposit_to_vault-RoundTrip, c_withdraw_from_vault-RoundTrip, c_close_vault-RoundTrip,
  c_place_auction_bid-RoundTrip,
}
use jellyfishsdk.Dftx.Message.{
  type_of, create_vault, update_vault, deposit_to_vault, withdraw_from_vault, close_vault,
  place_auction_bid,
}
use jellyfishsdk.Dftx.Message.Dispatch.{readers, find_reader}
use jellyfishsdk.Dftx.Message.Dispatch.{write_data}
use jellyfishsdk.Dftx.Vault.{
  CreateVault, UpdateVault, DepositToVault, WithdrawFromVault, CloseVault, PlaceAuctionBid,
}
use jellyfishsdk.Dftx.Message.Back.{MessageBack, mapped_back}

module _ {N S : Type 0} ⦃sb : SmartBuffer⦄ ⦃bn : BigNumber N⦄ (c_script : Codec S)
    (IsWritten : S → Type 0) (script_back : RoundTrip c_script IsWritten) where
  pub create_vault_back :
      (m : CreateVault S)
      → IsCreateVault IsWritten m
      → MessageBack {N = N} c_script IsWritten (create_vault m)
  unfolding write_data type_of readers find_reader
  create_vault_back m h =
      mapped_back {N = N} c_script IsWritten create_vault (c_create_vault c_script)
        (IsCreateVault IsWritten)
        (RoundTrip-EndTrip (c_create_vault c_script)
          (c_create_vault-RoundTrip c_script IsWritten script_back))
        m h refl refl

  pub update_vault_back :
      (m : UpdateVault S)
      → IsUpdateVault IsWritten m
      → MessageBack {N = N} c_script IsWritten (update_vault m)
  unfolding write_data type_of readers find_reader
  update_vault_back m h =
      mapped_back {N = N} c_script IsWritten update_vault (c_update_vault c_script)
        (IsUpdateVault IsWritten)
        (RoundTrip-EndTrip (c_update_vault c_script)
          (c_update_vault-RoundTrip c_script IsWritten script_back))
        m h refl refl

  pub deposit_to_vault_back :
      (m : DepositToVault N S)
      → IsDepositToVault IsWritten m
      → MessageBack {N = N} c_script IsWritten (deposit_to_vault m)
  unfolding write_data type_of readers find_reader
  deposit_to_vault_back m h =
      mapped_back {N = N} c_script IsWritten deposit_to_vault (c_deposit_to_vault c_script)
        (IsDepositToVault IsWritten)
        (RoundTrip-EndTrip (c_deposit_to_vault c_script)
          (c_deposit_to_vault-RoundTrip N c_script IsWritten script_back))
        m h refl refl

  pub withdraw_from_vault_back :
      (m : WithdrawFromVault N S)
      → IsWithdrawFromVault IsWritten m
      → MessageBack {N = N} c_script IsWritten (withdraw_from_vault m)
  unfolding write_data type_of readers find_reader
  withdraw_from_vault_back m h =
      mapped_back {N = N} c_script IsWritten withdraw_from_vault (c_withdraw_from_vault c_script)
        (IsWithdrawFromVault IsWritten)
        (RoundTrip-EndTrip (c_withdraw_from_vault c_script)
          (c_withdraw_from_vault-RoundTrip N c_script IsWritten script_back))
        m h refl refl

  pub close_vault_back :
      (m : CloseVault S)
      → IsCloseVault IsWritten m
      → MessageBack {N = N} c_script IsWritten (close_vault m)
  unfolding write_data type_of readers find_reader
  close_vault_back m h =
      mapped_back {N = N} c_script IsWritten close_vault (c_close_vault c_script)
        (IsCloseVault IsWritten)
        (RoundTrip-EndTrip (c_close_vault c_script)
          (c_close_vault-RoundTrip c_script IsWritten script_back))
        m h refl refl

  pub place_auction_bid_back :
      (m : PlaceAuctionBid N S)
      → IsPlaceAuctionBid IsWritten m
      → MessageBack {N = N} c_script IsWritten (place_auction_bid m)
  unfolding write_data type_of readers find_reader
  place_auction_bid_back m h =
      mapped_back {N = N} c_script IsWritten place_auction_bid (c_place_auction_bid c_script)
        (IsPlaceAuctionBid IsWritten)
        (RoundTrip-EndTrip (c_place_auction_bid c_script)
          (c_place_auction_bid-RoundTrip N c_script IsWritten script_back))
        m h refl refl
