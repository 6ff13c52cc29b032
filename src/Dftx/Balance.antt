-- ===== src/Dftx/Balance.antt =====
-- packages/jellyfish-transaction/src/script/dftx/dftx_balance.ts: the messages and their composers, over the
-- type N of amounts and the type S of scripts.
pub mod RoundTrip
use jellyfishsdk.Prelude.{ℕ, List}
use jellyfishsdk.Platform.{SmartBuffer, BigNumber}
use jellyfishsdk.Buffer.Codec.{Codec, record_of, ◌▹◌}
use jellyfishsdk.Buffer.Words.{uint32}
use jellyfishsdk.Buffer.VarInt.{var_int}
use jellyfishsdk.Buffer.Amounts.{satoshi_as_big_number}
use jellyfishsdk.Buffer.Fields.{compact_size_array}

pub record TokenBalanceUint32 (N : Type 0) : Type 0 where
  pub token : ℕ
  pub amount : N

-- `CTokenBalance`
unfoldable pub c_token_balance :
    {N : Type 0} ⦃sb : SmartBuffer⦄ ⦃bn : BigNumber N⦄ → Codec (TokenBalanceUint32 N)
c_token_balance =
    record_of (λ m. (m.token, m.amount))
      (λ (token, amount). record { token = token; amount = amount })
      (uint32 ▹ satoshi_as_big_number)

pub record ScriptBalances (N S : Type 0) : Type 0 where
  pub script : S
  pub balances : List (TokenBalanceUint32 N)

-- `CScriptBalances`
unfoldable pub c_script_balances :
    {N S : Type 0} ⦃sb : SmartBuffer⦄ ⦃bn : BigNumber N⦄ → Codec S → Codec (ScriptBalances N S)
c_script_balances c_script =
    record_of (λ m. (m.script, m.balances))
      (λ (script, balances). record { script = script; balances = balances })
      (c_script ▹ compact_size_array c_token_balance)

pub record TokenBalanceVarInt (N : Type 0) : Type 0 where
  pub token : ℕ
  pub amount : N

-- `CTokenBalanceVarInt`
unfoldable pub c_token_balance_var_int :
    {N : Type 0} ⦃sb : SmartBuffer⦄ ⦃bn : BigNumber N⦄ → Codec (TokenBalanceVarInt N)
c_token_balance_var_int =
    record_of (λ m. (m.token, m.amount))
      (λ (token, amount). record { token = token; amount = amount })
      (var_int ▹ satoshi_as_big_number)
