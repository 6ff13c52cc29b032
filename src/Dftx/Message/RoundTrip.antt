-- ===== src/Dftx/Message/RoundTrip.antt =====
-- packages/jellyfish-transaction/src/script/dftx/dftx.ts: every message that fits is read back.
use jellyfishsdk.Platform.{SmartBuffer, BigNumber}
use jellyfishsdk.Buffer.Codec.{Codec, RoundTrip}
use jellyfishsdk.Dftx.Message.{
  Message, unmapped, pool_swap, composite_swap, pool_add_liquidity, pool_remove_liquidity,
  pool_create_pair, pool_update_pair, token_mint, token_burn, token_create, token_update,
  token_update_any, utxos_to_account, account_to_utxos, account_to_account, transfer_domain,
  any_account_to_account, set_future_swap, appoint_oracle, remove_oracle, update_oracle,
  set_oracle_data, auto_auth_prep, create_masternode, update_masternode, resign_masternode,
  set_governance, set_governance_height, icx_create_order, icx_make_offer, icx_close_order,
  icx_close_offer, create_cfp, create_voc, vote, icx_submit_dfc_htlc, icx_submit_ext_htlc,
  icx_claim_dfc_htlc, set_loan_scheme, destroy_loan_scheme, set_default_loan_scheme,
  set_collateral_token, set_loan_token, update_loan_token, create_vault, update_vault,
  deposit_to_vault, withdraw_from_vault, close_vault, take_loan, payback_loan, payback_loan_v2,
  place_auction_bid, evm_tx,
}
use jellyfishsdk.Dftx.Message.Fits.{IsMessage}
use jellyfishsdk.Dftx.Message.Back.{MessageBack, unmapped_back, auto_auth_prep_back}
use jellyfishsdk.Dftx.Message.Back.Pool.{
  pool_swap_back, composite_swap_back, pool_add_liquidity_back, pool_remove_liquidity_back,
  pool_create_pair_back, pool_update_pair_back,
}
use jellyfishsdk.Dftx.Message.Back.Token.{
  token_mint_back, token_burn_back, token_create_back, token_update_back, token_update_any_back,
}
use jellyfishsdk.Dftx.Message.Back.Account.{
  utxos_to_account_back, account_to_utxos_back, account_to_account_back, transfer_domain_back,
  any_account_to_account_back, set_future_swap_back,
}
use jellyfishsdk.Dftx.Message.Back.Oracles.{
  appoint_oracle_back, remove_oracle_back, update_oracle_back, set_oracle_data_back,
}
use jellyfishsdk.Dftx.Message.Back.Masternode.{
  create_masternode_back, update_masternode_back, resign_masternode_back,
}
use jellyfishsdk.Dftx.Message.Back.IcxOrderbook.{
  icx_create_order_back, icx_make_offer_back, icx_close_order_back, icx_close_offer_back,
  icx_submit_dfc_htlc_back, icx_submit_ext_htlc_back, icx_claim_dfc_htlc_back,
}
use jellyfishsdk.Dftx.Message.Back.Proposals.{create_cfp_back, create_voc_back, vote_back}
use jellyfishsdk.Dftx.Message.Back.Loans.{
  set_loan_scheme_back, destroy_loan_scheme_back, set_default_loan_scheme_back,
  set_collateral_token_back, set_loan_token_back, update_loan_token_back, take_loan_back,
  payback_loan_back, payback_loan_v2_back,
}
use jellyfishsdk.Dftx.Message.Back.Vault.{
  create_vault_back, update_vault_back, deposit_to_vault_back, withdraw_from_vault_back,
  close_vault_back, place_auction_bid_back,
}
use jellyfishsdk.Dftx.Message.Back.Governance.{set_governance_back, set_governance_height_back}
use jellyfishsdk.Dftx.Message.Back.EvmTx.{evm_tx_back}

module _ {N S : Type 0} ⦃sb : SmartBuffer⦄ ⦃bn : BigNumber N⦄ (c_script : Codec S)
    (IsWritten : S → Type 0) (script_back : RoundTrip c_script IsWritten) where
  pub message_back :
      (m : Message N S) → IsMessage c_script IsWritten m → MessageBack c_script IsWritten m
  message_back (pool_swap m) h = pool_swap_back c_script IsWritten script_back m h
  message_back (composite_swap m) h = composite_swap_back c_script IsWritten script_back m h
  message_back (pool_add_liquidity m) h = pool_add_liquidity_back c_script IsWritten script_back m h
  message_back (pool_remove_liquidity m) h =
      pool_remove_liquidity_back c_script IsWritten script_back m h
  message_back (pool_create_pair m) h = pool_create_pair_back c_script IsWritten script_back m h
  message_back (pool_update_pair m) h = pool_update_pair_back c_script IsWritten script_back m h
  message_back (token_mint m) h = token_mint_back c_script IsWritten script_back m h
  message_back (token_burn m) h = token_burn_back c_script IsWritten script_back m h
  message_back (token_create m) h = token_create_back c_script IsWritten script_back m h
  message_back (token_update m) h = token_update_back c_script IsWritten script_back m h
  message_back (token_update_any m) h = token_update_any_back c_script IsWritten script_back m h
  message_back (utxos_to_account m) h = utxos_to_account_back c_script IsWritten script_back m h
  message_back (account_to_utxos m) h = account_to_utxos_back c_script IsWritten script_back m h
  message_back (account_to_account m) h = account_to_account_back c_script IsWritten script_back m h
  message_back (transfer_domain m) h = transfer_domain_back c_script IsWritten script_back m h
  message_back (any_account_to_account m) h =
      any_account_to_account_back c_script IsWritten script_back m h
  message_back (set_future_swap m) h = set_future_swap_back c_script IsWritten script_back m h
  message_back (appoint_oracle m) h = appoint_oracle_back c_script IsWritten script_back m h
  message_back (remove_oracle m) h = remove_oracle_back c_script IsWritten script_back m h
  message_back (update_oracle m) h = update_oracle_back c_script IsWritten script_back m h
  message_back (set_oracle_data m) h = set_oracle_data_back c_script IsWritten script_back m h
  message_back auto_auth_prep h = auto_auth_prep_back c_script IsWritten
  message_back (create_masternode m) h = create_masternode_back c_script IsWritten script_back m h
  message_back (update_masternode m) h = update_masternode_back c_script IsWritten script_back m h
  message_back (resign_masternode m) h = resign_masternode_back c_script IsWritten script_back m h
  message_back (set_governance m) h = set_governance_back c_script IsWritten m h
  message_back (set_governance_height m) h = set_governance_height_back c_script IsWritten m h
  message_back (icx_create_order m) h = icx_create_order_back c_script IsWritten script_back m h
  message_back (icx_make_offer m) h = icx_make_offer_back c_script IsWritten script_back m h
  message_back (icx_close_order m) h = icx_close_order_back c_script IsWritten script_back m h
  message_back (icx_close_offer m) h = icx_close_offer_back c_script IsWritten script_back m h
  message_back (create_cfp m) h = create_cfp_back c_script IsWritten script_back m h
  message_back (create_voc m) h = create_voc_back c_script IsWritten script_back m h
  message_back (vote m) h = vote_back c_script IsWritten script_back m h
  message_back (icx_submit_dfc_htlc m) h =
      icx_submit_dfc_htlc_back c_script IsWritten script_back m h
  message_back (icx_submit_ext_htlc m) h =
      icx_submit_ext_htlc_back c_script IsWritten script_back m h
  message_back (icx_claim_dfc_htlc m) h = icx_claim_dfc_htlc_back c_script IsWritten script_back m h
  message_back (set_loan_scheme m) h = set_loan_scheme_back c_script IsWritten script_back m h
  message_back (destroy_loan_scheme m) h =
      destroy_loan_scheme_back c_script IsWritten script_back m h
  message_back (set_default_loan_scheme m) h =
      set_default_loan_scheme_back c_script IsWritten script_back m h
  message_back (set_collateral_token m) h =
      set_collateral_token_back c_script IsWritten script_back m h
  message_back (set_loan_token m) h = set_loan_token_back c_script IsWritten script_back m h
  message_back (update_loan_token m) h = update_loan_token_back c_script IsWritten script_back m h
  message_back (create_vault m) h = create_vault_back c_script IsWritten script_back m h
  message_back (update_vault m) h = update_vault_back c_script IsWritten script_back m h
  message_back (deposit_to_vault m) h = deposit_to_vault_back c_script IsWritten script_back m h
  message_back (withdraw_from_vault m) h =
      withdraw_from_vault_back c_script IsWritten script_back m h
  message_back (close_vault m) h = close_vault_back c_script IsWritten script_back m h
  message_back (take_loan m) h = take_loan_back c_script IsWritten script_back m h
  message_back (payback_loan m) h = payback_loan_back c_script IsWritten script_back m h
  message_back (payback_loan_v2 m) h = payback_loan_v2_back c_script IsWritten script_back m h
  message_back (place_auction_bid m) h = place_auction_bid_back c_script IsWritten script_back m h
  message_back (evm_tx m) h = evm_tx_back c_script IsWritten script_back m h
  message_back (unmapped n m) h = unmapped_back c_script IsWritten n m h
