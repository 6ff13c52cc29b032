-- ===== src/Dftx/Message/Fits.antt =====
-- packages/jellyfish-transaction/src/script/dftx/dftx.ts: what the fields of a message must fit.
use jellyfishsdk.Prelude.{◌<◌, ◌≡◌, arith, none}
use jellyfishsdk.Platform.{SmartBuffer, BigNumber}
use jellyfishsdk.Buffer.Codec.{Codec}
use jellyfishsdk.Buffer.Hex.{IsHex}
use jellyfishsdk.Dftx.Pool.RoundTrip.{
  IsPoolSwap, IsCompositeSwap, IsPoolAddLiquidity, IsPoolRemoveLiquidity, IsPoolCreatePair,
  IsPoolUpdatePair,
}
use jellyfishsdk.Dftx.Token.RoundTrip.{
  IsTokenMint, IsTokenBurn, IsTokenCreate, IsTokenUpdate, IsTokenUpdateAny,
}
use jellyfishsdk.Dftx.Account.RoundTrip.{
  IsUtxosToAccount, IsAccountToUtxos, IsAccountToAccount, IsTransferDomain, IsAnyAccountToAccount,
  IsSetFutureSwap,
}
use jellyfishsdk.Dftx.Oracles.RoundTrip.{
  IsAppointOracle, IsRemoveOracle, IsUpdateOracle, IsSetOracleData,
}
use jellyfishsdk.Dftx.Masternode.RoundTrip.{
  IsCreateMasternode, IsUpdateMasternode, IsResignMasternode,
}
use jellyfishsdk.Dftx.IcxOrderbook.RoundTrip.{
  IsIcxCreateOrder, IsIcxMakeOffer, IsIcxCloseOrder, IsIcxCloseOffer, IsIcxSubmitDfcHtlc,
  IsIcxSubmitExtHtlc, IsIcxClaimDfcHtlc,
}
use jellyfishsdk.Dftx.Proposals.RoundTrip.{IsCreateProposal, IsVote}
use jellyfishsdk.Dftx.Loans.RoundTrip.{
  IsSetLoanScheme, IsDestroyLoanScheme, IsSetDefaultLoanScheme, IsSetCollateralToken,
  IsSetLoanToken, IsUpdateLoanToken, IsTakeLoan, IsPaybackLoan, IsPaybackLoanV2,
}
use jellyfishsdk.Dftx.Vault.RoundTrip.{
  IsCreateVault, IsUpdateVault, IsDepositToVault, IsWithdrawFromVault, IsCloseVault,
  IsPlaceAuctionBid,
}
use jellyfishsdk.Dftx.Governance.RoundTrip.{IsSetGovernance, IsSetGovernanceHeight}
use jellyfishsdk.Dftx.EvmTx.RoundTrip.{IsEvmTx}
use jellyfishsdk.Dftx.Message.{
  Message, type_of, unmapped, pool_swap, composite_swap, pool_add_liquidity, pool_remove_liquidity,
  pool_create_pair, pool_update_pair, token_mint, token_burn, token_create, token_update,
  token_update_any, utxos_to_account, account_to_utxos, account_to_account, transfer_domain,
  any_account_to_account, set_future_swap, appoint_oracle, remove_oracle, update_oracle,
  set_oracle_data, auto_auth_prep, create_masternode, update_masternode, resign_masternode,
  set_governance, set_governance_height, icx_create_order, icx_make_offer, icx_close_order,
  icx_close_offer, create_cfp, create_voc, vote, icx_submit_dfc_htlc, icx_submit_ext_htlc,
  icx_claim_dfc_htlc, set_loan_scheme, destroy_loan_scheme, set_default_loan_scheme,
  set_collateral_token, set_loan_token, update_loan_token, create_vault, update_vault,
  deposit_to_vault, withdraw_from_vault, close_vault, take_loan, payback_loan, payback_loan_v2,
  place_auction_bid, evm_tx,
}
use jellyfishsdk.Dftx.Message.Dispatch.{readers, find_reader}

module _ {N S : Type 0} ⦃sb : SmartBuffer⦄ ⦃bn : BigNumber N⦄ (c_script : Codec S)
    (IsWritten : S → Type 0) where
  -- The data of a message fits.
  abbrev pub IsMessage : Message N S → Type 0
  IsMessage (pool_swap m) = IsPoolSwap IsWritten m
  IsMessage (composite_swap m) = IsCompositeSwap IsWritten m
  IsMessage (pool_add_liquidity m) = IsPoolAddLiquidity IsWritten m
  IsMessage (pool_remove_liquidity m) = IsPoolRemoveLiquidity IsWritten m
  IsMessage (pool_create_pair m) = IsPoolCreatePair IsWritten m
  IsMessage (pool_update_pair m) = IsPoolUpdatePair IsWritten m
  IsMessage (token_mint m) = IsTokenMint IsWritten m
  IsMessage (token_burn m) = IsTokenBurn IsWritten m
  IsMessage (token_create m) = IsTokenCreate m
  IsMessage (token_update m) = IsTokenUpdate m
  IsMessage (token_update_any m) = IsTokenUpdateAny m
  IsMessage (utxos_to_account m) = IsUtxosToAccount IsWritten m
  IsMessage (account_to_utxos m) = IsAccountToUtxos IsWritten m
  IsMessage (account_to_account m) = IsAccountToAccount IsWritten m
  IsMessage (transfer_domain m) = IsTransferDomain IsWritten m
  IsMessage (any_account_to_account m) = IsAnyAccountToAccount IsWritten m
  IsMessage (set_future_swap m) = IsSetFutureSwap IsWritten m
  IsMessage (appoint_oracle m) = IsAppointOracle IsWritten m
  IsMessage (remove_oracle m) = IsRemoveOracle m
  IsMessage (update_oracle m) = IsUpdateOracle IsWritten m
  IsMessage (set_oracle_data m) = IsSetOracleData m
  IsMessage auto_auth_prep = Unit
  IsMessage (create_masternode m) = IsCreateMasternode m
  IsMessage (update_masternode m) = IsUpdateMasternode m
  IsMessage (resign_masternode m) = IsResignMasternode m
  IsMessage (set_governance m) = IsSetGovernance m
  IsMessage (set_governance_height m) = IsSetGovernanceHeight m
  IsMessage (icx_create_order m) = IsIcxCreateOrder IsWritten m
  IsMessage (icx_make_offer m) = IsIcxMakeOffer IsWritten m
  IsMessage (icx_close_order m) = IsIcxCloseOrder m
  IsMessage (icx_close_offer m) = IsIcxCloseOffer m
  IsMessage (create_cfp m) = IsCreateProposal IsWritten m
  IsMessage (create_voc m) = IsCreateProposal IsWritten m
  IsMessage (vote m) = IsVote m
  IsMessage (icx_submit_dfc_htlc m) = IsIcxSubmitDfcHtlc m
  IsMessage (icx_submit_ext_htlc m) = IsIcxSubmitExtHtlc m
  IsMessage (icx_claim_dfc_htlc m) = IsIcxClaimDfcHtlc m
  IsMessage (set_loan_scheme m) = IsSetLoanScheme m
  IsMessage (destroy_loan_scheme m) = IsDestroyLoanScheme m
  IsMessage (set_default_loan_scheme m) = IsSetDefaultLoanScheme m
  IsMessage (set_collateral_token m) = IsSetCollateralToken m
  IsMessage (set_loan_token m) = IsSetLoanToken m
  IsMessage (update_loan_token m) = IsUpdateLoanToken m
  IsMessage (create_vault m) = IsCreateVault IsWritten m
  IsMessage (update_vault m) = IsUpdateVault IsWritten m
  IsMessage (deposit_to_vault m) = IsDepositToVault IsWritten m
  IsMessage (withdraw_from_vault m) = IsWithdrawFromVault IsWritten m
  IsMessage (close_vault m) = IsCloseVault IsWritten m
  IsMessage (take_loan m) = IsTakeLoan IsWritten m
  IsMessage (payback_loan m) = IsPaybackLoan IsWritten m
  IsMessage (payback_loan_v2 m) = IsPaybackLoanV2 IsWritten m
  IsMessage (place_auction_bid m) = IsPlaceAuctionBid IsWritten m
  IsMessage (evm_tx m) = IsEvmTx m
  IsMessage (unmapped n m) =
      (n < 256) × (find_reader n (readers {N = N} c_script) ≡ none) × IsHex m.hex

  pub type_of-lt : (m : Message N S) → IsMessage m → type_of m < 256
  unfolding type_of
  type_of-lt (unmapped n m) h = h.0
  type_of-lt _ h = omega arith
