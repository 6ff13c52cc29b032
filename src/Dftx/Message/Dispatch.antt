-- ===== src/Dftx/Message/Dispatch.antt =====
-- packages/jellyfish-transaction/src/script/dftx/dftx.ts: `CDfTx`.
use jellyfishsdk.Prelude.{ℕ, List, [], ◌∷◌, ◌++◌, Option, none, some, ◌==◌, not, if◌then◌else◌}
use jellyfishsdk.Prelude.{Result, ok, ◌>>=◌, ◌>>◌, throw_if, unknown_signature}
use jellyfishsdk.Platform.{SmartBuffer, BigNumber}
use jellyfishsdk.Buffer.Codec.{Codec}
use jellyfishsdk.Dftx.Pool.{
  c_pool_swap, c_composite_swap, c_pool_add_liquidity, c_pool_remove_liquidity, c_pool_create_pair,
  c_pool_update_pair,
}
use jellyfishsdk.Dftx.Token.{
  c_token_mint, c_token_burn, c_token_create, c_token_update, c_token_update_any,
}
use jellyfishsdk.Dftx.Account.{
  c_utxos_to_account, c_account_to_utxos, c_account_to_account, c_transfer_domain,
  c_any_account_to_account, c_set_future_swap,
}
use jellyfishsdk.Dftx.Oracles.{
  c_appoint_oracle, c_remove_oracle, c_update_oracle, c_set_oracle_data,
}
use jellyfishsdk.Dftx.Masternode.{c_create_masternode, c_update_masternode, c_resign_masternode}
use jellyfishsdk.Dftx.Governance.{c_set_governance, c_set_governance_height}
use jellyfishsdk.Dftx.IcxOrderbook.{
  c_icx_create_order, c_icx_make_offer, c_icx_close_order, c_icx_close_offer, c_icx_submit_dfc_htlc,
  c_icx_submit_ext_htlc, c_icx_claim_dfc_htlc,
}
use jellyfishsdk.Dftx.Proposals.{c_create_proposal, c_vote}
use jellyfishsdk.Dftx.Loans.{
  c_set_loan_scheme, c_destroy_loan_scheme, c_set_default_loan_scheme, c_set_collateral_token,
  c_set_loan_token, c_update_loan_token, c_take_loan, c_payback_loan, c_payback_loan_v2,
}
use jellyfishsdk.Dftx.Vault.{
  c_create_vault, c_update_vault, c_deposit_to_vault, c_withdraw_from_vault, c_close_vault,
  c_place_auction_bid,
}
use jellyfishsdk.Dftx.EvmTx.{c_evm_tx}
use jellyfishsdk.Dftx.Unmapped.{c_defi_op_unmapped, c_auto_auth_prep}
use jellyfishsdk.Dftx.Message.{
  DfTx, Message, type_of, unmapped, pool_swap, composite_swap, pool_add_liquidity,
  pool_remove_liquidity, pool_create_pair, pool_update_pair, token_mint, token_burn, token_create,
  token_update, token_update_any, utxos_to_account, account_to_utxos, account_to_account,
  transfer_domain, any_account_to_account, set_future_swap, appoint_oracle, remove_oracle,
  update_oracle, set_oracle_data, auto_auth_prep, create_masternode, update_masternode,
  resign_masternode, set_governance, set_governance_height, icx_create_order, icx_make_offer,
  icx_close_order, icx_close_offer, create_cfp, create_voc, vote, icx_submit_dfc_htlc,
  icx_submit_ext_htlc, icx_claim_dfc_htlc, set_loan_scheme, destroy_loan_scheme,
  set_default_loan_scheme, set_collateral_token, set_loan_token, update_loan_token, create_vault,
  update_vault, deposit_to_vault, withdraw_from_vault, close_vault, take_loan, payback_loan,
  payback_loan_v2, place_auction_bid, evm_tx,
}

-- `CDfTx.SIGNATURE`
abbrev pub dftx_signature : ℕ
dftx_signature = 0x44665478

abbrev pub Reader : Type 0 → Type 0 → Type 0
Reader N S = List ℕ → Result (Message N S × List ℕ)

module _ {N S : Type 0} where
  unfoldable pub as_message : {A : Type 0} → (A → Message N S) → Codec A → Reader N S
  as_message make c bs = do (a, rest) ← c.from_buffer bs; ok (make a, rest)

  unfoldable pub find_reader : ℕ → List (ℕ × Reader N S) → Option (Reader N S)
  find_reader n [] = none
  find_reader n ((op_code, reader) ∷ rest) =
      if op_code == n then some reader else find_reader n rest

  unfoldable pub reader_or_unmapped : ⦃sb : SmartBuffer⦄ → ℕ → Option (Reader N S) → Reader N S
  reader_or_unmapped n none = as_message (λ m. unmapped n m) c_defi_op_unmapped
  reader_or_unmapped n (some reader) = reader

module _ {N S : Type 0} ⦃sb : SmartBuffer⦄ ⦃bn : BigNumber N⦄ (c_script : Codec S) where
  -- The cases of `CDfTx.data`, in their order.
  unfoldable pub readers : List (ℕ × Reader N S)
  readers =
      (0x73, as_message pool_swap (c_pool_swap c_script))
      ∷ (0x69, as_message composite_swap (c_composite_swap c_script))
      ∷ (0x6c, as_message pool_add_liquidity (c_pool_add_liquidity c_script))
      ∷ (0x72, as_message pool_remove_liquidity (c_pool_remove_liquidity c_script))
      ∷ (0x70, as_message pool_create_pair (c_pool_create_pair c_script))
      ∷ (0x75, as_message pool_update_pair (c_pool_update_pair c_script))
      ∷ (0x4d, as_message token_mint (c_token_mint c_script))
      ∷ (0x46, as_message token_burn (c_token_burn c_script))
      ∷ (0x54, as_message token_create c_token_create)
      ∷ (0x4e, as_message token_update c_token_update)
      ∷ (0x6e, as_message token_update_any c_token_update_any)
      ∷ (0x55, as_message utxos_to_account (c_utxos_to_account c_script))
      ∷ (0x62, as_message account_to_utxos (c_account_to_utxos c_script))
      ∷ (0x42, as_message account_to_account (c_account_to_account c_script))
      ∷ (0x38, as_message transfer_domain (c_transfer_domain c_script))
      ∷ (0x61, as_message any_account_to_account (c_any_account_to_account c_script))
      ∷ (0x51, as_message set_future_swap (c_set_future_swap c_script))
      ∷ (0x6f, as_message appoint_oracle (c_appoint_oracle c_script))
      ∷ (0x68, as_message remove_oracle c_remove_oracle)
      ∷ (0x74, as_message update_oracle (c_update_oracle c_script))
      ∷ (0x79, as_message set_oracle_data c_set_oracle_data)
      ∷ (0x41, as_message (λ _. auto_auth_prep) c_auto_auth_prep)
      ∷ (0x43, as_message create_masternode c_create_masternode)
      ∷ (0x6d, as_message update_masternode c_update_masternode)
      ∷ (0x52, as_message resign_masternode c_resign_masternode)
      ∷ (0x47, as_message set_governance c_set_governance)
      ∷ (0x6a, as_message set_governance_height c_set_governance_height)
      ∷ (0x31, as_message icx_create_order (c_icx_create_order c_script))
      ∷ (0x32, as_message icx_make_offer (c_icx_make_offer c_script))
      ∷ (0x36, as_message icx_close_order c_icx_close_order)
      ∷ (0x37, as_message icx_close_offer c_icx_close_offer)
      ∷ (0x7a, as_message create_cfp (c_create_proposal c_script))
      ∷ (0x45, as_message create_voc (c_create_proposal c_script))
      ∷ (0x4f, as_message vote c_vote)
      ∷ (0x33, as_message icx_submit_dfc_htlc c_icx_submit_dfc_htlc)
      ∷ (0x34, as_message icx_submit_ext_htlc c_icx_submit_ext_htlc)
      ∷ (0x35, as_message icx_claim_dfc_htlc c_icx_claim_dfc_htlc)
      ∷ (0x4c, as_message set_loan_scheme c_set_loan_scheme)
      ∷ (0x44, as_message destroy_loan_scheme c_destroy_loan_scheme)
      ∷ (0x64, as_message set_default_loan_scheme c_set_default_loan_scheme)
      ∷ (0x63, as_message set_collateral_token c_set_collateral_token)
      ∷ (0x67, as_message set_loan_token c_set_loan_token)
      ∷ (0x78, as_message update_loan_token c_update_loan_token)
      ∷ (0x56, as_message create_vault (c_create_vault c_script))
      ∷ (0x76, as_message update_vault (c_update_vault c_script))
      ∷ (0x53, as_message deposit_to_vault (c_deposit_to_vault c_script))
      ∷ (0x4A, as_message withdraw_from_vault (c_withdraw_from_vault c_script))
      ∷ (0x65, as_message close_vault (c_close_vault c_script))
      ∷ (0x58, as_message take_loan (c_take_loan c_script))
      ∷ (0x48, as_message payback_loan (c_payback_loan c_script))
      ∷ (0x6B, as_message payback_loan_v2 (c_payback_loan_v2 c_script))
      ∷ (0x49, as_message place_auction_bid (c_place_auction_bid c_script))
      ∷ (0x39, as_message evm_tx c_evm_tx)
      ∷ []

  unfoldable pub read_data : ℕ → Reader N S
  read_data n = reader_or_unmapped n (find_reader n readers)

  unfoldable pub write_data : Message N S → Result (List ℕ)
  write_data (pool_swap m) = (c_pool_swap c_script).to_buffer m
  write_data (composite_swap m) = (c_composite_swap c_script).to_buffer m
  write_data (pool_add_liquidity m) = (c_pool_add_liquidity c_script).to_buffer m
  write_data (pool_remove_liquidity m) = (c_pool_remove_liquidity c_script).to_buffer m
  write_data (pool_create_pair m) = (c_pool_create_pair c_script).to_buffer m
  write_data (pool_update_pair m) = (c_pool_update_pair c_script).to_buffer m
  write_data (token_mint m) = (c_token_mint c_script).to_buffer m
  write_data (token_burn m) = (c_token_burn c_script).to_buffer m
  write_data (token_create m) = c_token_create.to_buffer m
  write_data (token_update m) = c_token_update.to_buffer m
  write_data (token_update_any m) = c_token_update_any.to_buffer m
  write_data (utxos_to_account m) = (c_utxos_to_account c_script).to_buffer m
  write_data (account_to_utxos m) = (c_account_to_utxos c_script).to_buffer m
  write_data (account_to_account m) = (c_account_to_account c_script).to_buffer m
  write_data (transfer_domain m) = (c_transfer_domain c_script).to_buffer m
  write_data (any_account_to_account m) = (c_any_account_to_account c_script).to_buffer m
  write_data (set_future_swap m) = (c_set_future_swap c_script).to_buffer m
  write_data (appoint_oracle m) = (c_appoint_oracle c_script).to_buffer m
  write_data (remove_oracle m) = c_remove_oracle.to_buffer m
  write_data (update_oracle m) = (c_update_oracle c_script).to_buffer m
  write_data (set_oracle_data m) = c_set_oracle_data.to_buffer m
  write_data auto_auth_prep = c_auto_auth_prep.to_buffer tt
  write_data (create_masternode m) = c_create_masternode.to_buffer m
  write_data (update_masternode m) = c_update_masternode.to_buffer m
  write_data (resign_masternode m) = c_resign_masternode.to_buffer m
  write_data (set_governance m) = c_set_governance.to_buffer m
  write_data (set_governance_height m) = c_set_governance_height.to_buffer m
  write_data (icx_create_order m) = (c_icx_create_order c_script).to_buffer m
  write_data (icx_make_offer m) = (c_icx_make_offer c_script).to_buffer m
  write_data (icx_close_order m) = c_icx_close_order.to_buffer m
  write_data (icx_close_offer m) = c_icx_close_offer.to_buffer m
  write_data (create_cfp m) = (c_create_proposal c_script).to_buffer m
  write_data (create_voc m) = (c_create_proposal c_script).to_buffer m
  write_data (vote m) = c_vote.to_buffer m
  write_data (icx_submit_dfc_htlc m) = c_icx_submit_dfc_htlc.to_buffer m
  write_data (icx_submit_ext_htlc m) = c_icx_submit_ext_htlc.to_buffer m
  write_data (icx_claim_dfc_htlc m) = c_icx_claim_dfc_htlc.to_buffer m
  write_data (set_loan_scheme m) = c_set_loan_scheme.to_buffer m
  write_data (destroy_loan_scheme m) = c_destroy_loan_scheme.to_buffer m
  write_data (set_default_loan_scheme m) = c_set_default_loan_scheme.to_buffer m
  write_data (set_collateral_token m) = c_set_collateral_token.to_buffer m
  write_data (set_loan_token m) = c_set_loan_token.to_buffer m
  write_data (update_loan_token m) = c_update_loan_token.to_buffer m
  write_data (create_vault m) = (c_create_vault c_script).to_buffer m
  write_data (update_vault m) = (c_update_vault c_script).to_buffer m
  write_data (deposit_to_vault m) = (c_deposit_to_vault c_script).to_buffer m
  write_data (withdraw_from_vault m) = (c_withdraw_from_vault c_script).to_buffer m
  write_data (close_vault m) = (c_close_vault c_script).to_buffer m
  write_data (take_loan m) = (c_take_loan c_script).to_buffer m
  write_data (payback_loan m) = (c_payback_loan c_script).to_buffer m
  write_data (payback_loan_v2 m) = (c_payback_loan_v2 c_script).to_buffer m
  write_data (place_auction_bid m) = (c_place_auction_bid c_script).to_buffer m
  write_data (evm_tx m) = c_evm_tx.to_buffer m
  write_data (unmapped n m) = c_defi_op_unmapped.to_buffer m

  unfoldable pub read_dftx : List ℕ → Result (DfTx N S × List ℕ)
  read_dftx bs = do
    (signature, rest) ← sb.read_uint32_be bs
    throw_if (not (signature == dftx_signature)) unknown_signature
    (n, rest') ← sb.read_uint8 rest
    (message, rest'') ← read_data n rest'
    ok (record { signature = signature; message = message }, rest'')

  unfoldable pub write_dftx : DfTx N S → Result (List ℕ)
  write_dftx d = do
    throw_if (not (d.signature == dftx_signature)) unknown_signature
    head ← sb.write_uint32_be d.signature
    op_code ← sb.write_uint8 (type_of d.message)
    body ← write_data d.message
    ok (head ++ op_code ++ body)

  -- `CDfTx`
  abbrev pub c_dftx : Codec (DfTx N S)
  c_dftx = record { from_buffer = read_dftx; to_buffer = write_dftx }
