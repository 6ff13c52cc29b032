-- ===== src/Dftx/Message/Back/Account.antt =====
-- packages/jellyfish-transaction/src/script/dftx/dftx.ts: the messages of Dftx/Account.
use jellyfishsdk.Prelude.{refl}
use jellyfishsdk.Platform.{SmartBuffer, BigNumber}
use jellyfishsdk.Buffer.Codec.{Codec, RoundTrip}
use jellyfishsdk.Buffer.Codec.Ending.{RoundTrip-EndTrip}
use jellyfishsdk.Dftx.Account.{
  c_utxos_to_account, c_account_to_utxos, c_account_to_account, c_transfer_domain,
  c_any_account_to_account, c_set_future_swap,
}
use jellyfishsdk.Dftx.Account.RoundTrip.{
  IsUtxosToAccount, IsAccountToUtxos, IsAccountToAccount, IsTransferDomain, IsAnyAccountToAccount,
  IsSetFutureSwap, c_utxos_to_account-RoundTrip, c_account_to_utxos-RoundTrip,
  c_account_to_account-RoundTrip, c_transfer_domain-RoundTrip, c_any_account_to_account-RoundTrip,
  c_set_future_swap-RoundTrip,
}
use jellyfishsdk.Dftx.Message.{
  type_of, utxos_to_account, account_to_utxos, account_to_account, transfer_domain,
  any_account_to_account, set_future_swap,
}
use jellyfishsdk.Dftx.Message.Dispatch.{readers, find_reader}
use jellyfishsdk.Dftx.Message.Dispatch.{write_data}
use jellyfishsdk.Dftx.Account.{
  UtxosToAccount, AccountToUtxos, AccountToAccount, TransferDomain, AnyAccountToAccount,
  SetFutureSwap,
}
use jellyfishsdk.Dftx.Message.Back.{MessageBack, mapped_back}

module _ {N S : Type 0} ⦃sb : SmartBuffer⦄ ⦃bn : BigNumber N⦄ (c_script : Codec S)
    (IsWritten : S → Type 0) (script_back : RoundTrip c_script IsWritten) where
  pub utxos_to_account_back :
      (m : UtxosToAccount N S)
      → IsUtxosToAccount IsWritten m
      → MessageBack {N = N} c_script IsWritten (utxos_to_account m)
  unfolding write_data type_of readers find_reader
  utxos_to_account_back m h =
      mapped_back {N = N} c_script IsWritten utxos_to_account (c_utxos_to_account c_script)
        (IsUtxosToAccount IsWritten)
        (RoundTrip-EndTrip (c_utxos_to_account c_script)
          (c_utxos_to_account-RoundTrip N c_script IsWritten script_back))
        m h refl refl

  pub account_to_utxos_back :
      (m : AccountToUtxos N S)
      → IsAccountToUtxos IsWritten m
      → MessageBack {N = N} c_script IsWritten (account_to_utxos m)
  unfolding write_data type_of readers find_reader
  account_to_utxos_back m h =
      mapped_back {N = N} c_script IsWritten account_to_utxos (c_account_to_utxos c_script)
        (IsAccountToUtxos IsWritten)
        (RoundTrip-EndTrip (c_account_to_utxos c_script)
          (c_account_to_utxos-RoundTrip N c_script IsWritten script_back))
        m h refl refl

  pub account_to_account_back :
      (m : AccountToAccount N S)
      → IsAccountToAccount IsWritten m
      → MessageBack {N = N} c_script IsWritten (account_to_account m)
  unfolding write_data type_of readers find_reader
  account_to_account_back m h =
      mapped_back {N = N} c_script IsWritten account_to_account (c_account_to_account c_script)
        (IsAccountToAccount IsWritten)
        (RoundTrip-EndTrip (c_account_to_account c_script)
          (c_account_to_account-RoundTrip N c_script IsWritten script_back))
        m h refl refl

  pub transfer_domain_back :
      (m : TransferDomain N S)
      → IsTransferDomain IsWritten m
      → MessageBack {N = N} c_script IsWritten (transfer_domain m)
  unfolding write_data type_of readers find_reader
  transfer_domain_back m h =
      mapped_back {N = N} c_script IsWritten transfer_domain (c_transfer_domain c_script)
        (IsTransferDomain IsWritten)
        (RoundTrip-EndTrip (c_transfer_domain c_script)
          (c_transfer_domain-RoundTrip N c_script IsWritten script_back))
        m h refl refl

  pub any_account_to_account_back :
      (m : AnyAccountToAccount N S)
      → IsAnyAccountToAccount IsWritten m
      → MessageBack {N = N} c_script IsWritten (any_account_to_account m)
  unfolding write_data type_of readers find_reader
  any_account_to_account_back m h =
      mapped_back {N = N} c_script IsWritten any_account_to_account
        (c_any_account_to_account c_script) (IsAnyAccountToAccount IsWritten)
        (RoundTrip-EndTrip (c_any_account_to_account c_script)
          (c_any_account_to_account-RoundTrip N c_script IsWritten script_back))
        m h refl refl

  pub set_future_swap_back :
      (m : SetFutureSwap N S)
      → IsSetFutureSwap IsWritten m
      → MessageBack {N = N} c_script IsWritten (set_future_swap m)
  unfolding write_data type_of readers find_reader
  set_future_swap_back m h =
      mapped_back {N = N} c_script IsWritten set_future_swap (c_set_future_swap c_script)
        (IsSetFutureSwap IsWritten)
        (RoundTrip-EndTrip (c_set_future_swap c_script)
          (c_set_future_swap-RoundTrip N c_script IsWritten script_back))
        m h refl refl
