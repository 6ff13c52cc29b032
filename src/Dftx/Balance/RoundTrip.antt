-- ===== src/Dftx/Balance/RoundTrip.antt =====
-- packages/jellyfish-transaction/src/script/dftx/dftx_balance.ts: the messages are read back as written.
use jellyfishsdk.Prelude.{refl}
use jellyfishsdk.Platform.{SmartBuffer, BigNumber}
use jellyfishsdk.Buffer.Codec.{Codec, RoundTrip, ▹-RoundTrip, record_of-RoundTrip}
use jellyfishsdk.Buffer.Words.{uint32-RoundTrip}
use jellyfishsdk.Buffer.VarInt.Inverse.{var_int-RoundTrip}
use jellyfishsdk.Buffer.Amounts.{IsAmount, satoshi_as_big_number-RoundTrip}
use jellyfishsdk.Buffer.Fields.Laws.{IsArray, compact_size_array-RoundTrip}
use jellyfishsdk.Dftx.Fits.{IsUint32, IsSafe}
use jellyfishsdk.Dftx.Balance.{
  TokenBalanceUint32, c_token_balance, ScriptBalances, c_script_balances, TokenBalanceVarInt,
  c_token_balance_var_int,
}

abbrev pub IsTokenBalanceUint32 : {N : Type 0} ⦃bn : BigNumber N⦄ → TokenBalanceUint32 N → Type 0
IsTokenBalanceUint32 m = IsUint32 m.token × IsAmount m.amount

pub c_token_balance-RoundTrip :
    (N : Type 0) ⦃sb : SmartBuffer⦄ ⦃bn : BigNumber N⦄
    → RoundTrip {A = TokenBalanceUint32 N} c_token_balance IsTokenBalanceUint32
unfolding c_token_balance
c_token_balance-RoundTrip N =
    record_of-RoundTrip _ _ _ _ (λ m. refl)
      (▹-RoundTrip _ _ uint32-RoundTrip (satoshi_as_big_number-RoundTrip N))

abbrev pub IsScriptBalances :
    {N S : Type 0} ⦃bn : BigNumber N⦄ → (S → Type 0) → ScriptBalances N S → Type 0
IsScriptBalances IsWritten m = IsWritten m.script × IsArray IsTokenBalanceUint32 m.balances

pub c_script_balances-RoundTrip :
    (N : Type 0) {S : Type 0} ⦃sb : SmartBuffer⦄ ⦃bn : BigNumber N⦄ (c_script : Codec S)
    (IsWritten : S → Type 0)
    → RoundTrip c_script IsWritten
    → RoundTrip {A = ScriptBalances N S} (c_script_balances c_script) (IsScriptBalances IsWritten)
unfolding c_script_balances
c_script_balances-RoundTrip N c_script IsWritten script_back =
    record_of-RoundTrip _ _ _ _ (λ m. refl)
      (▹-RoundTrip _ _ script_back (compact_size_array-RoundTrip _ _ (c_token_balance-RoundTrip N)))

abbrev pub IsTokenBalanceVarInt : {N : Type 0} ⦃bn : BigNumber N⦄ → TokenBalanceVarInt N → Type 0
IsTokenBalanceVarInt m = IsSafe m.token × IsAmount m.amount

pub c_token_balance_var_int-RoundTrip :
    (N : Type 0) ⦃sb : SmartBuffer⦄ ⦃bn : BigNumber N⦄
    → RoundTrip {A = TokenBalanceVarInt N} c_token_balance_var_int IsTokenBalanceVarInt
unfolding c_token_balance_var_int
c_token_balance_var_int-RoundTrip N =
    record_of-RoundTrip _ _ _ _ (λ m. refl)
      (▹-RoundTrip _ _ var_int-RoundTrip (satoshi_as_big_number-RoundTrip N))
