-- ===== src/Dftx/Vault/RoundTrip.antt =====
-- packages/jellyfish-transaction/src/script/dftx/dftx_vault.ts: the messages are read back as written.
use jellyfishsdk.Prelude.{refl}
use jellyfishsdk.Platform.{SmartBuffer, BigNumber}
use jellyfishsdk.Buffer.Codec.{Codec, RoundTrip, ▹-RoundTrip, record_of-RoundTrip}
use jellyfishsdk.Buffer.Words.{uint32-RoundTrip}
use jellyfishsdk.Buffer.Texts.{IsString, compact_size_utf8_be-RoundTrip}
use jellyfishsdk.Buffer.Fields.Laws.{IsHexOf, hex_be_buffer_le-RoundTrip}
use jellyfishsdk.Dftx.Fits.{IsUint32}
use jellyfishsdk.Dftx.Balance.RoundTrip.{IsTokenBalanceVarInt, c_token_balance_var_int-RoundTrip}
use jellyfishsdk.Dftx.Vault.{
  CreateVault, c_create_vault, UpdateVault, c_update_vault, DepositToVault, c_deposit_to_vault,
  WithdrawFromVault, c_withdraw_from_vault, CloseVault, c_close_vault, PlaceAuctionBid,
  c_place_auction_bid,
}

abbrev pub IsCreateVault : {S : Type 0} → (S → Type 0) → CreateVault S → Type 0
IsCreateVault IsWritten m = IsWritten m.owner_address × IsString m.scheme_id

pub c_create_vault-RoundTrip :
    {S : Type 0} ⦃sb : SmartBuffer⦄ (c_script : Codec S) (IsWritten : S → Type 0)
    → RoundTrip c_script IsWritten
    → RoundTrip (c_create_vault c_script) (IsCreateVault IsWritten)
unfolding c_create_vault
c_create_vault-RoundTrip c_script IsWritten script_back =
    record_of-RoundTrip _ _ _ _ (λ m. refl)
      (▹-RoundTrip _ _ script_back compact_size_utf8_be-RoundTrip)

abbrev pub IsUpdateVault : {S : Type 0} → (S → Type 0) → UpdateVault S → Type 0
IsUpdateVault IsWritten m =
    IsHexOf 32 m.vault_id × (IsWritten m.owner_address × IsString m.scheme_id)

pub c_update_vault-RoundTrip :
    {S : Type 0} ⦃sb : SmartBuffer⦄ (c_script : Codec S) (IsWritten : S → Type 0)
    → RoundTrip c_script IsWritten
    → RoundTrip (c_update_vault c_script) (IsUpdateVault IsWritten)
unfolding c_update_vault
c_update_vault-RoundTrip c_script IsWritten script_back =
    record_of-RoundTrip _ _ _ _ (λ m. refl)
      (▹-RoundTrip _ _ (hex_be_buffer_le-RoundTrip 32)
        (▹-RoundTrip _ _ script_back compact_size_utf8_be-RoundTrip))

abbrev pub IsDepositToVault :
    {N S : Type 0} ⦃bn : BigNumber N⦄ → (S → Type 0) → DepositToVault N S → Type 0
IsDepositToVault IsWritten m =
    IsHexOf 32 m.vault_id × (IsWritten m.from × IsTokenBalanceVarInt m.token_amount)

pub c_deposit_to_vault-RoundTrip :
    (N : Type 0) {S : Type 0} ⦃sb : SmartBuffer⦄ ⦃bn : BigNumber N⦄ (c_script : Codec S)
    (IsWritten : S → Type 0)
    → RoundTrip c_script IsWritten
    → RoundTrip {A = DepositToVault N S} (c_deposit_to_vault c_script) (IsDepositToVault IsWritten)
unfolding c_deposit_to_vault
c_deposit_to_vault-RoundTrip N c_script IsWritten script_back =
    record_of-RoundTrip _ _ _ _ (λ m. refl)
      (▹-RoundTrip _ _ (hex_be_buffer_le-RoundTrip 32)
        (▹-RoundTrip _ _ script_back (c_token_balance_var_int-RoundTrip N)))

abbrev pub IsWithdrawFromVault :
    {N S : Type 0} ⦃bn : BigNumber N⦄ → (S → Type 0) → WithdrawFromVault N S → Type 0
IsWithdrawFromVault IsWritten m =
    IsHexOf 32 m.vault_id × (IsWritten m.to × IsTokenBalanceVarInt m.token_amount)

pub c_withdraw_from_vault-RoundTrip :
    (N : Type 0) {S : Type 0} ⦃sb : SmartBuffer⦄ ⦃bn : BigNumber N⦄ (c_script : Codec S)
    (IsWritten : S → Type 0)
    → RoundTrip c_script IsWritten
    → RoundTrip {A = WithdrawFromVault N S}
        (c_withdraw_from_vault c_script)
        (IsWithdrawFromVault IsWritten)
unfolding c_withdraw_from_vault
c_withdraw_from_vault-RoundTrip N c_script IsWritten script_back =
    record_of-RoundTrip _ _ _ _ (λ m. refl)
      (▹-RoundTrip _ _ (hex_be_buffer_le-RoundTrip 32)
        (▹-RoundTrip _ _ script_back (c_token_balance_var_int-RoundTrip N)))

abbrev pub IsCloseVault : {S : Type 0} → (S → Type 0) → CloseVault S → Type 0
IsCloseVault IsWritten m = IsHexOf 32 m.vault_id × IsWritten m.to

pub c_close_vault-RoundTrip :
    {S : Type 0} ⦃sb : SmartBuffer⦄ (c_script : Codec S) (IsWritten : S → Type 0)
    → RoundTrip c_script IsWritten
    → RoundTrip (c_close_vault c_script) (IsCloseVault IsWritten)
unfolding c_close_vault
c_close_vault-RoundTrip c_script IsWritten script_back =
    record_of-RoundTrip _ _ _ _ (λ m. refl)
      (▹-RoundTrip _ _ (hex_be_buffer_le-RoundTrip 32) script_back)

abbrev pub IsPlaceAuctionBid :
    {N S : Type 0} ⦃bn : BigNumber N⦄ → (S → Type 0) → PlaceAuctionBid N S → Type 0
IsPlaceAuctionBid IsWritten m =
    IsHexOf 32 m.vault_id
    × (IsUint32 m.index × (IsWritten m.from × IsTokenBalanceVarInt m.token_amount))

pub c_place_auction_bid-RoundTrip :
    (N : Type 0) {S : Type 0} ⦃sb : SmartBuffer⦄ ⦃bn : BigNumber N⦄ (c_script : Codec S)
    (IsWritten : S → Type 0)
    → RoundTrip c_script IsWritten
    → RoundTrip {A = PlaceAuctionBid N S}
        (c_place_auction_bid c_script)
        (IsPlaceAuctionBid IsWritten)
unfolding c_place_auction_bid
c_place_auction_bid-RoundTrip N c_script IsWritten script_back =
    record_of-RoundTrip _ _ _ _ (λ m. refl)
      (▹-RoundTrip _ _ (hex_be_buffer_le-RoundTrip 32) (
        ▹-RoundTrip _ _ uint32-RoundTrip
          (▹-RoundTrip _ _ script_back (c_token_balance_var_int-RoundTrip N))))
