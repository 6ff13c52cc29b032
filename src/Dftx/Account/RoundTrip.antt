-- ===== src/Dftx/Account/RoundTrip.antt =====
-- packages/jellyfish-transaction/src/script/dftx/dftx_account.ts: the messages are read back as written.
use jellyfishsdk.Prelude.{refl}
use jellyfishsdk.Platform.{SmartBuffer, BigNumber, IsByte}
use jellyfishsdk.Buffer.Codec.{Codec, RoundTrip, ▹-RoundTrip, record_of-RoundTrip}
use jellyfishsdk.Buffer.Words.{uint8-RoundTrip, uint32-RoundTrip}
use jellyfishsdk.Buffer.VarInt.Inverse.{var_int-RoundTrip}
use jellyfishsdk.Buffer.Fields.Laws.{IsArray, ubool8-RoundTrip, compact_size_array-RoundTrip}
use jellyfishsdk.Dftx.Fits.{IsUint32, IsSafe}
use jellyfishsdk.Dftx.Balance.RoundTrip.{
  IsTokenBalanceUint32, c_token_balance-RoundTrip, IsScriptBalances, c_script_balances-RoundTrip,
  IsTokenBalanceVarInt, c_token_balance_var_int-RoundTrip,
}
use jellyfishsdk.Dftx.Account.{
  UtxosToAccount, c_utxos_to_account, AccountToUtxos, c_account_to_utxos, AccountToAccount,
  c_account_to_account, AnyAccountToAccount, c_any_account_to_account, TransferDomainItem,
  c_transfer_domain_item, TransferDomainPair, c_transfer_domain_pair, TransferDomain,
  c_transfer_domain, SetFutureSwap, c_set_future_swap,
}

abbrev pub IsUtxosToAccount :
    {N S : Type 0} ⦃bn : BigNumber N⦄ → (S → Type 0) → UtxosToAccount N S → Type 0
IsUtxosToAccount IsWritten m = IsArray (IsScriptBalances IsWritten) m.to

pub c_utxos_to_account-RoundTrip :
    (N : Type 0) {S : Type 0} ⦃sb : SmartBuffer⦄ ⦃bn : BigNumber N⦄ (c_script : Codec S)
    (IsWritten : S → Type 0)
    → RoundTrip c_script IsWritten
    → RoundTrip {A = UtxosToAccount N S} (c_utxos_to_account c_script) (IsUtxosToAccount IsWritten)
unfolding c_utxos_to_account
c_utxos_to_account-RoundTrip N c_script IsWritten script_back =
    record_of-RoundTrip _ _ _ _ (λ m. refl)
      (compact_size_array-RoundTrip _ _
        (c_script_balances-RoundTrip N c_script IsWritten script_back))

abbrev pub IsAccountToUtxos :
    {N S : Type 0} ⦃bn : BigNumber N⦄ → (S → Type 0) → AccountToUtxos N S → Type 0
IsAccountToUtxos IsWritten m =
    IsWritten m.from × (IsArray IsTokenBalanceUint32 m.balances × IsSafe m.minting_outputs_start)

pub c_account_to_utxos-RoundTrip :
    (N : Type 0) {S : Type 0} ⦃sb : SmartBuffer⦄ ⦃bn : BigNumber N⦄ (c_script : Codec S)
    (IsWritten : S → Type 0)
    → RoundTrip c_script IsWritten
    → RoundTrip {A = AccountToUtxos N S} (c_account_to_utxos c_script) (IsAccountToUtxos IsWritten)
unfolding c_account_to_utxos
c_account_to_utxos-RoundTrip N c_script IsWritten script_back =
    record_of-RoundTrip _ _ _ _ (λ m. refl)
      (▹-RoundTrip _ _ script_back (
        ▹-RoundTrip _ _ (compact_size_array-RoundTrip _ _ (c_token_balance-RoundTrip N))
          var_int-RoundTrip))

abbrev pub IsAccountToAccount :
    {N S : Type 0} ⦃bn : BigNumber N⦄ → (S → Type 0) → AccountToAccount N S → Type 0
IsAccountToAccount IsWritten m = IsWritten m.from × IsArray (IsScriptBalances IsWritten) m.to

pub c_account_to_account-RoundTrip :
    (N : Type 0) {S : Type 0} ⦃sb : SmartBuffer⦄ ⦃bn : BigNumber N⦄ (c_script : Codec S)
    (IsWritten : S → Type 0)
    → RoundTrip c_script IsWritten
    → RoundTrip {A = AccountToAccount N S}
        (c_account_to_account c_script)
        (IsAccountToAccount IsWritten)
unfolding c_account_to_account
c_account_to_account-RoundTrip N c_script IsWritten script_back =
    record_of-RoundTrip _ _ _ _ (λ m. refl)
      (▹-RoundTrip _ _ script_back (
        compact_size_array-RoundTrip _ _
          (c_script_balances-RoundTrip N c_script IsWritten script_back)))

abbrev pub IsAnyAccountToAccount :
    {N S : Type 0} ⦃bn : BigNumber N⦄ → (S → Type 0) → AnyAccountToAccount N S → Type 0
IsAnyAccountToAccount IsWritten m =
    IsArray (IsScriptBalances IsWritten) m.from × IsArray (IsScriptBalances IsWritten) m.to

pub c_any_account_to_account-RoundTrip :
    (N : Type 0) {S : Type 0} ⦃sb : SmartBuffer⦄ ⦃bn : BigNumber N⦄ (c_script : Codec S)
    (IsWritten : S → Type 0)
    → RoundTrip c_script IsWritten
    → RoundTrip {A = AnyAccountToAccount N S}
        (c_any_account_to_account c_script)
        (IsAnyAccountToAccount IsWritten)
unfolding c_any_account_to_account
c_any_account_to_account-RoundTrip N c_script IsWritten script_back =
    record_of-RoundTrip _ _ _ _ (λ m. refl)
      (▹-RoundTrip _ _
        (compact_size_array-RoundTrip _ _
          (c_script_balances-RoundTrip N c_script IsWritten script_back))
        (compact_size_array-RoundTrip _ _
          (c_script_balances-RoundTrip N c_script IsWritten script_back)))

abbrev pub IsTransferDomainItem :
    {N S : Type 0} ⦃bn : BigNumber N⦄ → (S → Type 0) → TransferDomainItem N S → Type 0
IsTransferDomainItem IsWritten m =
    IsWritten m.address
    × (IsTokenBalanceVarInt m.amount × (IsByte m.domain × IsArray IsByte m.data_array))

pub c_transfer_domain_item-RoundTrip :
    (N : Type 0) {S : Type 0} ⦃sb : SmartBuffer⦄ ⦃bn : BigNumber N⦄ (c_script : Codec S)
    (IsWritten : S → Type 0)
    → RoundTrip c_script IsWritten
    → RoundTrip {A = TransferDomainItem N S}
        (c_transfer_domain_item c_script)
        (IsTransferDomainItem IsWritten)
unfolding c_transfer_domain_item
c_transfer_domain_item-RoundTrip N c_script IsWritten script_back =
    record_of-RoundTrip _ _ _ _ (λ m. refl)
      (▹-RoundTrip _ _ script_back (
        ▹-RoundTrip _ _ (c_token_balance_var_int-RoundTrip N)
          (▹-RoundTrip _ _ uint8-RoundTrip (compact_size_array-RoundTrip _ _ uint8-RoundTrip))))

abbrev pub IsTransferDomainPair :
    {N S : Type 0} ⦃bn : BigNumber N⦄ → (S → Type 0) → TransferDomainPair N S → Type 0
IsTransferDomainPair IsWritten m =
    IsTransferDomainItem IsWritten m.src × IsTransferDomainItem IsWritten m.dst

pub c_transfer_domain_pair-RoundTrip :
    (N : Type 0) {S : Type 0} ⦃sb : SmartBuffer⦄ ⦃bn : BigNumber N⦄ (c_script : Codec S)
    (IsWritten : S → Type 0)
    → RoundTrip c_script IsWritten
    → RoundTrip {A = TransferDomainPair N S}
        (c_transfer_domain_pair c_script)
        (IsTransferDomainPair IsWritten)
unfolding c_transfer_domain_pair
c_transfer_domain_pair-RoundTrip N c_script IsWritten script_back =
    record_of-RoundTrip _ _ _ _ (λ m. refl)
      (▹-RoundTrip _ _ (c_transfer_domain_item-RoundTrip N c_script IsWritten script_back)
        (c_transfer_domain_item-RoundTrip N c_script IsWritten script_back))

abbrev pub IsTransferDomain :
    {N S : Type 0} ⦃bn : BigNumber N⦄ → (S → Type 0) → TransferDomain N S → Type 0
IsTransferDomain IsWritten m = IsArray (IsTransferDomainPair IsWritten) m.items

pub c_transfer_domain-RoundTrip :
    (N : Type 0) {S : Type 0} ⦃sb : SmartBuffer⦄ ⦃bn : BigNumber N⦄ (c_script : Codec S)
    (IsWritten : S → Type 0)
    → RoundTrip c_script IsWritten
    → RoundTrip {A = TransferDomain N S} (c_transfer_domain c_script) (IsTransferDomain IsWritten)
unfolding c_transfer_domain
c_transfer_domain-RoundTrip N c_script IsWritten script_back =
    record_of-RoundTrip _ _ _ _ (λ m. refl)
      (compact_size_array-RoundTrip _ _
        (c_transfer_domain_pair-RoundTrip N c_script IsWritten script_back))

abbrev pub IsSetFutureSwap :
    {N S : Type 0} ⦃bn : BigNumber N⦄ → (S → Type 0) → SetFutureSwap N S → Type 0
IsSetFutureSwap IsWritten m =
    IsWritten m.owner × (IsTokenBalanceVarInt m.source × (IsUint32 m.destination × Unit {0}))

pub c_set_future_swap-RoundTrip :
    (N : Type 0) {S : Type 0} ⦃sb : SmartBuffer⦄ ⦃bn : BigNumber N⦄ (c_script : Codec S)
    (IsWritten : S → Type 0)
    → RoundTrip c_script IsWritten
    → RoundTrip {A = SetFutureSwap N S} (c_set_future_swap c_script) (IsSetFutureSwap IsWritten)
unfolding c_set_future_swap
c_set_future_swap-RoundTrip N c_script IsWritten script_back =
    record_of-RoundTrip _ _ _ _ (λ m. refl)
      (▹-RoundTrip _ _ script_back (
        ▹-RoundTrip _ _ (c_token_balance_var_int-RoundTrip N)
          (▹-RoundTrip _ _ uint32-RoundTrip ubool8-RoundTrip)))
