-- ===== src/Dftx/Account.antt =====
-- packages/jellyfish-transaction/src/script/dftx/dftx_account.ts: the messages and their composers, over the
-- type N of amounts and the type S of scripts.
pub mod RoundTrip
use jellyfishsdk.Prelude.{ℕ, List, Bool}
use jellyfishsdk.Platform.{SmartBuffer, BigNumber}
use jellyfishsdk.Buffer.Codec.{Codec, record_of, ◌▹◌}
use jellyfishsdk.Buffer.Words.{uint8, uint32}
use jellyfishsdk.Buffer.VarInt.{var_int}
use jellyfishsdk.Buffer.Fields.{ubool8, compact_size_array}
use jellyfishsdk.Dftx.Balance.{
  TokenBalanceUint32, c_token_balance, ScriptBalances, c_script_balances, TokenBalanceVarInt,
  c_token_balance_var_int,
}

pub record UtxosToAccount (N S : Type 0) : Type 0 where
  pub to : List (ScriptBalances N S)

-- `CUtxosToAccount`
unfoldable pub c_utxos_to_account :
    {N S : Type 0} ⦃sb : SmartBuffer⦄ ⦃bn : BigNumber N⦄ → Codec S → Codec (UtxosToAccount N S)
c_utxos_to_account c_script =
    record_of (λ m. m.to) (λ to. record { to = to })
      (compact_size_array (c_script_balances c_script))

pub record AccountToUtxos (N S : Type 0) : Type 0 where
  pub from : S
  pub balances : List (TokenBalanceUint32 N)
  pub minting_outputs_start : ℕ

-- `CAccountToUtxos`
unfoldable pub c_account_to_utxos :
    {N S : Type 0} ⦃sb : SmartBuffer⦄ ⦃bn : BigNumber N⦄ → Codec S → Codec (AccountToUtxos N S)
c_account_to_utxos c_script =
    record_of (λ m. (m.from, (m.balances, m.minting_outputs_start)))
      (λ (from, (balances, minting_outputs_start)). record {
        from = from;
        balances = balances;
        minting_outputs_start = minting_outputs_start;
      })
      (c_script ▹ compact_size_array c_token_balance ▹ var_int)

pub record AccountToAccount (N S : Type 0) : Type 0 where
  pub from : S
  pub to : List (ScriptBalances N S)

-- `CAccountToAccount`
unfoldable pub c_account_to_account :
    {N S : Type 0} ⦃sb : SmartBuffer⦄ ⦃bn : BigNumber N⦄ → Codec S → Codec (AccountToAccount N S)
c_account_to_account c_script =
    record_of (λ m. (m.from, m.to)) (λ (from, to). record { from = from; to = to })
      (c_script ▹ compact_size_array (c_script_balances c_script))

pub record AnyAccountToAccount (N S : Type 0) : Type 0 where
  pub from : List (ScriptBalances N S)
  pub to : List (ScriptBalances N S)

-- `CAnyAccountToAccount`
unfoldable pub c_any_account_to_account :
    {N S : Type 0} ⦃sb : SmartBuffer⦄ ⦃bn : BigNumber N⦄ → Codec S → Codec (AnyAccountToAccount N S)
c_any_account_to_account c_script =
    record_of (λ m. (m.from, m.to)) (λ (from, to). record { from = from; to = to })
      (compact_size_array (c_script_balances c_script)
        ▹ compact_size_array (c_script_balances c_script))

pub record TransferDomainItem (N S : Type 0) : Type 0 where
  pub address : S
  pub amount : TokenBalanceVarInt N
  pub domain : ℕ
  pub data_array : List ℕ

-- `CTransferDomainItem`
unfoldable pub c_transfer_domain_item :
    {N S : Type 0} ⦃sb : SmartBuffer⦄ ⦃bn : BigNumber N⦄ → Codec S → Codec (TransferDomainItem N S)
c_transfer_domain_item c_script =
    record_of (λ m. (m.address, (m.amount, (m.domain, m.data_array))))
      (λ (address, (amount, (domain, data_array))). record {
        address = address;
        amount = amount;
        domain = domain;
        data_array = data_array;
      })
      (c_script ▹ c_token_balance_var_int ▹ uint8 ▹ compact_size_array uint8)

pub record TransferDomainPair (N S : Type 0) : Type 0 where
  pub src : TransferDomainItem N S
  pub dst : TransferDomainItem N S

-- `CTransferDomainPair`
unfoldable pub c_transfer_domain_pair :
    {N S : Type 0} ⦃sb : SmartBuffer⦄ ⦃bn : BigNumber N⦄ → Codec S → Codec (TransferDomainPair N S)
c_transfer_domain_pair c_script =
    record_of (λ m. (m.src, m.dst)) (λ (src, dst). record { src = src; dst = dst })
      (c_transfer_domain_item c_script ▹ c_transfer_domain_item c_script)

pub record TransferDomain (N S : Type 0) : Type 0 where
  pub items : List (TransferDomainPair N S)

-- `CTransferDomain`
unfoldable pub c_transfer_domain :
    {N S : Type 0} ⦃sb : SmartBuffer⦄ ⦃bn : BigNumber N⦄ → Codec S → Codec (TransferDomain N S)
c_transfer_domain c_script =
    record_of (λ m. m.items) (λ items. record { items = items })
      (compact_size_array (c_transfer_domain_pair c_script))

pub record SetFutureSwap (N S : Type 0) : Type 0 where
  pub owner : S
  pub source : TokenBalanceVarInt N
  pub destination : ℕ
  pub withdraw : Bool

-- `CSetFutureSwap`
unfoldable pub c_set_future_swap :
    {N S : Type 0} ⦃sb : SmartBuffer⦄ ⦃bn : BigNumber N⦄ → Codec S → Codec (SetFutureSwap N S)
c_set_future_swap c_script =
    record_of (λ m. (m.owner, (m.source, (m.destination, m.withdraw))))
      (λ (owner, (source, (destination, withdraw))). record {
        owner = owner;
        source = source;
        destination = destination;
        withdraw = withdraw;
      })
      (c_script ▹ c_token_balance_var_int ▹ uint32 ▹ ubool8)
