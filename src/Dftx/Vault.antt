-- ===== src/Dftx/Vault.antt =====
-- packages/jellyfish-transaction/src/script/dftx/dftx_vault.ts: the messages and their composers, over the
-- type N of amounts and the type S of scripts.
pub mod RoundTrip
use jellyfishsdk.Prelude.{ℕ}
use jellyfishsdk.Platform.{SmartBuffer, BigNumber}
use jellyfishsdk.Buffer.Codec.{Codec, record_of, ◌▹◌}
use jellyfishsdk.Buffer.Hex.{Text}
use jellyfishsdk.Buffer.Words.{uint32}
use jellyfishsdk.Buffer.Texts.{compact_size_utf8_be}
use jellyfishsdk.Buffer.Fields.{hex_be_buffer_le}
use jellyfishsdk.Dftx.Balance.{TokenBalanceVarInt, c_token_balance_var_int}

pub record CreateVault (S : Type 0) : Type 0 where
  pub owner_address : S
  pub scheme_id : Text

-- `CCreateVault`
unfoldable pub c_create_vault : {S : Type 0} ⦃sb : SmartBuffer⦄ → Codec S → Codec (CreateVault S)
c_create_vault c_script =
    record_of (λ m. (m.owner_address, m.scheme_id))
      (λ (owner_address, scheme_id). record {
        owner_address = owner_address;
        scheme_id = scheme_id;
      })
      (c_script ▹ compact_size_utf8_be)

pub record UpdateVault (S : Type 0) : Type 0 where
  pub vault_id : Text
  pub owner_address : S
  pub scheme_id : Text

-- `CUpdateVault`
unfoldable pub c_update_vault : {S : Type 0} ⦃sb : SmartBuffer⦄ → Codec S → Codec (UpdateVault S)
c_update_vault c_script =
    record_of (λ m. (m.vault_id, (m.owner_address, m.scheme_id)))
      (λ (vault_id, (owner_address, scheme_id)). record {
        vault_id = vault_id;
        owner_address = owner_address;
        scheme_id = scheme_id;
      })
      (hex_be_buffer_le 32 ▹ c_script ▹ compact_size_utf8_be)

pub record DepositToVault (N S : Type 0) : Type 0 where
  pub vault_id : Text
  pub from : S
  pub token_amount : TokenBalanceVarInt N

-- `CDepositToVault`
unfoldable pub c_deposit_to_vault :
    {N S : Type 0} ⦃sb : SmartBuffer⦄ ⦃bn : BigNumber N⦄ → Codec S → Codec (DepositToVault N S)
c_deposit_to_vault c_script =
    record_of (λ m. (m.vault_id, (m.from, m.token_amount)))
      (λ (vault_id, (from, token_amount)). record {
        vault_id = vault_id;
        from = from;
        token_amount = token_amount;
      })
      (hex_be_buffer_le 32 ▹ c_script ▹ c_token_balance_var_int)

pub record WithdrawFromVault (N S : Type 0) : Type 0 where
  pub vault_id : Text
  pub to : S
  pub token_amount : TokenBalanceVarInt N

-- `CWithdrawFromVault`
unfoldable pub c_withdraw_from_vault :
    {N S : Type 0} ⦃sb : SmartBuffer⦄ ⦃bn : BigNumber N⦄ → Codec S → Codec (WithdrawFromVault N S)
c_withdraw_from_vault c_script =
    record_of (λ m. (m.vault_id, (m.to, m.token_amount)))
      (λ (vault_id, (to, token_amount)). record {
        vault_id = vault_id;
        to = to;
        token_amount = token_amount;
      })
      (hex_be_buffer_le 32 ▹ c_script ▹ c_token_balance_var_int)

pub record CloseVault (S : Type 0) : Type 0 where
  pub vault_id : Text
  pub to : S

-- `CCloseVault`
unfoldable pub c_close_vault : {S : Type 0} ⦃sb : SmartBuffer⦄ → Codec S → Codec (CloseVault S)
c_close_vault c_script =
    record_of (λ m. (m.vault_id, m.to)) (λ (vault_id, to). record { vault_id = vault_id; to = to })
      (hex_be_buffer_le 32 ▹ c_script)

pub record PlaceAuctionBid (N S : Type 0) : Type 0 where
  pub vault_id : Text
  pub index : ℕ
  pub from : S
  pub token_amount : TokenBalanceVarInt N

-- `CPlaceAuctionBid`
unfoldable pub c_place_auction_bid :
    {N S : Type 0} ⦃sb : SmartBuffer⦄ ⦃bn : BigNumber N⦄ → Codec S → Codec (PlaceAuctionBid N S)
c_place_auction_bid c_script =
    record_of (λ m. (m.vault_id, (m.index, (m.from, m.token_amount))))
      (λ (vault_id, (index, (from, token_amount))). record {
        vault_id = vault_id;
        index = index;
        from = from;
        token_amount = token_amount;
      })
      (hex_be_buffer_le 32 ▹ uint32 ▹ c_script ▹ c_token_balance_var_int)
