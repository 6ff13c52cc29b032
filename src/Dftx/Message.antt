-- ===== src/Dftx/Message.antt =====
-- packages/jellyfish-transaction/src/script/dftx/dftx.ts: the data of a DeFi transaction, with the type
-- byte of each message.
pub mod Back
pub mod Dispatch
pub mod Fits
pub mod RoundTrip
pub mod Transaction
use jellyfishsdk.Prelude.{ℕ}
use jellyfishsdk.Dftx.Pool.{
  PoolSwap, CompositeSwap, PoolAddLiquidity, PoolRemoveLiquidity, PoolCreatePair, PoolUpdatePair,
}
use jellyfishsdk.Dftx.Token.{TokenMint, TokenBurn, TokenCreate, TokenUpdate, TokenUpdateAny}
use jellyfishsdk.Dftx.Account.{
  UtxosToAccount, AccountToUtxos, AccountToAccount, TransferDomain, AnyAccountToAccount,
  SetFutureSwap,
}
use jellyfishsdk.Dftx.Oracles.{AppointOracle, RemoveOracle, UpdateOracle, SetOracleData}
use jellyfishsdk.Dftx.Masternode.{CreateMasternode, UpdateMasternode, ResignMasternode}
use jellyfishsdk.Dftx.Governance.{SetGovernance, SetGovernanceHeight}
use jellyfishsdk.Dftx.IcxOrderbook.{
  IcxCreateOrder, IcxMakeOffer, IcxCloseOrder, IcxCloseOffer, IcxSubmitDfcHtlc, IcxSubmitExtHtlc,
  IcxClaimDfcHtlc,
}
use jellyfishsdk.Dftx.Proposals.{CreateProposal, Vote}
use jellyfishsdk.Dftx.Loans.{
  SetLoanScheme, DestroyLoanScheme, SetDefaultLoanScheme, SetCollateralToken, SetLoanToken,
  UpdateLoanToken, TakeLoan, PaybackLoan, PaybackLoanV2,
}
use jellyfishsdk.Dftx.Vault.{
  CreateVault, UpdateVault, DepositToVault, WithdrawFromVault, CloseVault, PlaceAuctionBid,
}
use jellyfishsdk.Dftx.EvmTx.{EvmTx}
use jellyfishsdk.Dftx.Unmapped.{DefiOpUnmapped}

-- One constructor for each case of `CDfTx.data`, and one with its type for the others.
pub data Message (N S : Type 0) : Type 0 where
  pool_swap : PoolSwap N S → Message N S
  composite_swap : CompositeSwap N S → Message N S
  pool_add_liquidity : PoolAddLiquidity N S → Message N S
  pool_remove_liquidity : PoolRemoveLiquidity N S → Message N S
  pool_create_pair : PoolCreatePair N S → Message N S
  pool_update_pair : PoolUpdatePair N S → Message N S
  token_mint : TokenMint N S → Message N S
  token_burn : TokenBurn N S → Message N S
  token_create : TokenCreate N → Message N S
  token_update : TokenUpdate → Message N S
  token_update_any : TokenUpdateAny N → Message N S
  utxos_to_account : UtxosToAccount N S → Message N S
  account_to_utxos : AccountToUtxos N S → Message N S
  account_to_account : AccountToAccount N S → Message N S
  transfer_domain : TransferDomain N S → Message N S
  any_account_to_account : AnyAccountToAccount N S → Message N S
  set_future_swap : SetFutureSwap N S → Message N S
  appoint_oracle : AppointOracle S → Message N S
  remove_oracle : RemoveOracle → Message N S
  update_oracle : UpdateOracle S → Message N S
  set_oracle_data : SetOracleData N → Message N S
  auto_auth_prep : Message N S
  create_masternode : CreateMasternode → Message N S
  update_masternode : UpdateMasternode → Message N S
  resign_masternode : ResignMasternode → Message N S
  set_governance : SetGovernance N → Message N S
  set_governance_height : SetGovernanceHeight N → Message N S
  icx_create_order : IcxCreateOrder N S → Message N S
  icx_make_offer : IcxMakeOffer N S → Message N S
  icx_close_order : IcxCloseOrder → Message N S
  icx_close_offer : IcxCloseOffer → Message N S
  create_cfp : CreateProposal N S → Message N S
  create_voc : CreateProposal N S → Message N S
  vote : Vote → Message N S
  icx_submit_dfc_htlc : IcxSubmitDfcHtlc N → Message N S
  icx_submit_ext_htlc : IcxSubmitExtHtlc N → Message N S
  icx_claim_dfc_htlc : IcxClaimDfcHtlc → Message N S
  set_loan_scheme : SetLoanScheme N → Message N S
  destroy_loan_scheme : DestroyLoanScheme N → Message N S
  set_default_loan_scheme : SetDefaultLoanScheme → Message N S
  set_collateral_token : SetCollateralToken N → Message N S
  set_loan_token : SetLoanToken N → Message N S
  update_loan_token : UpdateLoanToken N → Message N S
  create_vault : CreateVault S → Message N S
  update_vault : UpdateVault S → Message N S
  deposit_to_vault : DepositToVault N S → Message N S
  withdraw_from_vault : WithdrawFromVault N S → Message N S
  close_vault : CloseVault S → Message N S
  take_loan : TakeLoan N S → Message N S
  payback_loan : PaybackLoan N S → Message N S
  payback_loan_v2 : PaybackLoanV2 N S → Message N S
  place_auction_bid : PlaceAuctionBid N S → Message N S
  evm_tx : EvmTx → Message N S
  unmapped : ℕ → DefiOpUnmapped → Message N S

-- `OP_CODE` of the classes.
unfoldable pub type_of : {N S : Type 0} → Message N S → ℕ
type_of (pool_swap m) = 0x73
type_of (composite_swap m) = 0x69
type_of (pool_add_liquidity m) = 0x6c
type_of (pool_remove_liquidity m) = 0x72
type_of (pool_create_pair m) = 0x70
type_of (pool_update_pair m) = 0x75
type_of (token_mint m) = 0x4d
type_of (token_burn m) = 0x46
type_of (token_create m) = 0x54
type_of (token_update m) = 0x4e
type_of (token_update_any m) = 0x6e
type_of (utxos_to_account m) = 0x55
type_of (account_to_utxos m) = 0x62
type_of (account_to_account m) = 0x42
type_of (transfer_domain m) = 0x38
type_of (any_account_to_account m) = 0x61
type_of (set_future_swap m) = 0x51
type_of (appoint_oracle m) = 0x6f
type_of (remove_oracle m) = 0x68
type_of (update_oracle m) = 0x74
type_of (set_oracle_data m) = 0x79
type_of auto_auth_prep = 0x41
type_of (create_masternode m) = 0x43
type_of (update_masternode m) = 0x6d
type_of (resign_masternode m) = 0x52
type_of (set_governance m) = 0x47
type_of (set_governance_height m) = 0x6a
type_of (icx_create_order m) = 0x31
type_of (icx_make_offer m) = 0x32
type_of (icx_close_order m) = 0x36
type_of (icx_close_offer m) = 0x37
type_of (create_cfp m) = 0x7a
type_of (create_voc m) = 0x45
type_of (vote m) = 0x4f
type_of (icx_submit_dfc_htlc m) = 0x33
type_of (icx_submit_ext_htlc m) = 0x34
type_of (icx_claim_dfc_htlc m) = 0x35
type_of (set_loan_scheme m) = 0x4c
type_of (destroy_loan_scheme m) = 0x44
type_of (set_default_loan_scheme m) = 0x64
type_of (set_collateral_token m) = 0x63
type_of (set_loan_token m) = 0x67
type_of (update_loan_token m) = 0x78
type_of (create_vault m) = 0x56
type_of (update_vault m) = 0x76
type_of (deposit_to_vault m) = 0x53
type_of (withdraw_from_vault m) = 0x4A
type_of (close_vault m) = 0x65
type_of (take_loan m) = 0x58
type_of (payback_loan m) = 0x48
type_of (payback_loan_v2 m) = 0x6B
type_of (place_auction_bid m) = 0x49
type_of (evm_tx m) = 0x39
type_of (unmapped n m) = n

-- `DfTx`: `type` is `type_of data`. The name is for readers only and is not composed.
pub record DfTx (N S : Type 0) : Type 0 where
  pub signature : ℕ
  pub message : Message N S
