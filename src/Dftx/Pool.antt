-- ===== src/Dftx/Pool.antt =====
-- packages/jellyfish-transaction/src/script/dftx/dftx_pool.ts: the messages and their composers, over the
-- type N of amounts and the type S of scripts.
pub mod RoundTrip
use jellyfishsdk.Prelude.{ℕ, List, Option, Bool}
use jellyfishsdk.Platform.{SmartBuffer, BigNumber}
use jellyfishsdk.Buffer.Codec.{Codec, record_of, ◌▹◌}
use jellyfishsdk.Buffer.Codec.Ending.{trailing}
use jellyfishsdk.Buffer.Hex.{Text}
use jellyfishsdk.Buffer.VarInt.{var_int}
use jellyfishsdk.Buffer.Amounts.{satoshi_as_big_number, max_price_as_big_number}
use jellyfishsdk.Buffer.Texts.{compact_size_utf8_be}
use jellyfishsdk.Buffer.Fields.{ubool8, ubool32, compact_size_array}
use jellyfishsdk.Dftx.Balance.{
  TokenBalanceUint32, c_token_balance, ScriptBalances, c_script_balances,
}

pub record PoolSwap (N S : Type 0) : Type 0 where
  pub from_script : S
  pub from_token_id : ℕ
  pub from_amount : N
  pub to_script : S
  pub to_token_id : ℕ
  pub max_price : N

-- `CPoolSwap`
unfoldable pub c_pool_swap :
    {N S : Type 0} ⦃sb : SmartBuffer⦄ ⦃bn : BigNumber N⦄ → Codec S → Codec (PoolSwap N S)
c_pool_swap c_script =
    record_of
      (λ m. (
        m.from_script,
        (m.from_token_id, (m.from_amount, (m.to_script, (m.to_token_id, m.max_price)))),
      ))
      (λ (from_script, (from_token_id, (from_amount, (to_script, (to_token_id, max_price))))).
        record {
          from_script = from_script;
          from_token_id = from_token_id;
          from_amount = from_amount;
          to_script = to_script;
          to_token_id = to_token_id;
          max_price = max_price;
        })
      (c_script ▹ var_int ▹ satoshi_as_big_number ▹ c_script ▹ var_int ▹ max_price_as_big_number)

pub record PoolId : Type 0 where
  pub id : ℕ

-- `CPoolId`
unfoldable pub c_pool_id : ⦃sb : SmartBuffer⦄ → Codec PoolId
c_pool_id = record_of (λ m. m.id) (λ id. record { id = id }) (var_int)

pub record CompositeSwap (N S : Type 0) : Type 0 where
  pub pool_swap : PoolSwap N S
  pub pools : List PoolId

-- `CCompositeSwap`
unfoldable pub c_composite_swap :
    {N S : Type 0} ⦃sb : SmartBuffer⦄ ⦃bn : BigNumber N⦄ → Codec S → Codec (CompositeSwap N S)
c_composite_swap c_script =
    record_of (λ m. (m.pool_swap, m.pools))
      (λ (pool_swap, pools). record { pool_swap = pool_swap; pools = pools })
      (c_pool_swap c_script ▹ compact_size_array c_pool_id)

pub record PoolAddLiquidity (N S : Type 0) : Type 0 where
  pub from : List (ScriptBalances N S)
  pub share_address : S

-- `CPoolAddLiquidity`
unfoldable pub c_pool_add_liquidity :
    {N S : Type 0} ⦃sb : SmartBuffer⦄ ⦃bn : BigNumber N⦄ → Codec S → Codec (PoolAddLiquidity N S)
c_pool_add_liquidity c_script =
    record_of (λ m. (m.from, m.share_address))
      (λ (from, share_address). record { from = from; share_address = share_address })
      (compact_size_array (c_script_balances c_script) ▹ c_script)

pub record PoolRemoveLiquidity (N S : Type 0) : Type 0 where
  pub script : S
  pub token_id : ℕ
  pub amount : N

-- `CPoolRemoveLiquidity`
unfoldable pub c_pool_remove_liquidity :
    {N S : Type 0} ⦃sb : SmartBuffer⦄ ⦃bn : BigNumber N⦄ → Codec S → Codec (PoolRemoveLiquidity N S)
c_pool_remove_liquidity c_script =
    record_of (λ m. (m.script, (m.token_id, m.amount)))
      (λ (script, (token_id, amount)). record {
        script = script;
        token_id = token_id;
        amount = amount;
      })
      (c_script ▹ var_int ▹ satoshi_as_big_number)

pub record PoolCreatePair (N S : Type 0) : Type 0 where
  pub token_a : ℕ
  pub token_b : ℕ
  pub commission : N
  pub owner_address : S
  pub status : Bool
  pub pair_symbol : Text
  pub custom_rewards : Option (List (TokenBalanceUint32 N))

-- `CPoolCreatePair`
unfoldable pub c_pool_create_pair :
    {N S : Type 0} ⦃sb : SmartBuffer⦄ ⦃bn : BigNumber N⦄ → Codec S → Codec (PoolCreatePair N S)
c_pool_create_pair c_script =
    record_of
      (λ m. (
        m.token_a,
        (
          m.token_b,
          (m.commission, (m.owner_address, (m.status, (m.pair_symbol, m.custom_rewards)))),
        ),
      ))
      (λ (
        token_a,
        (token_b, (commission, (owner_address, (status, (pair_symbol, custom_rewards))))),
      ).
        record {
          token_a = token_a;
          token_b = token_b;
          commission = commission;
          owner_address = owner_address;
          status = status;
          pair_symbol = pair_symbol;
          custom_rewards = custom_rewards;
        })
      (var_int
        ▹ var_int
        ▹ satoshi_as_big_number
        ▹ c_script
        ▹ ubool8
        ▹ compact_size_utf8_be
        ▹ trailing (compact_size_array c_token_balance))

pub record PoolUpdatePair (N S : Type 0) : Type 0 where
  pub pool_id : ℕ
  pub status : Bool
  pub commission : N
  pub owner_address : S
  pub custom_rewards : Option (List (TokenBalanceUint32 N))

-- `CPoolUpdatePair`
unfoldable pub c_pool_update_pair :
    {N S : Type 0} ⦃sb : SmartBuffer⦄ ⦃bn : BigNumber N⦄ → Codec S → Codec (PoolUpdatePair N S)
c_pool_update_pair c_script =
    record_of (λ m. (m.pool_id, (m.status, (m.commission, (m.owner_address, m.custom_rewards)))))
      (λ (pool_id, (status, (commission, (owner_address, custom_rewards)))). record {
        pool_id = pool_id;
        status = status;
        commission = commission;
        owner_address = owner_address;
        custom_rewards = custom_rewards;
      })
      (var_int
        ▹ ubool32
        ▹ satoshi_as_big_number
        ▹ c_script
        ▹ trailing (compact_size_array c_token_balance))
