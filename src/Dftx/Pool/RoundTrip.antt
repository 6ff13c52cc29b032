-- ===== src/Dftx/Pool/RoundTrip.antt =====
-- packages/jellyfish-transaction/src/script/dftx/dftx_pool.ts: the messages are read back as written.
use jellyfishsdk.Prelude.{refl, end_of_buffer}
use jellyfishsdk.Platform.{SmartBuffer, BigNumber}
use jellyfishsdk.Buffer.Codec.{Codec, RoundTrip, ▹-RoundTrip, record_of-RoundTrip}
use jellyfishsdk.Buffer.Codec.Ending.{
  EndTrip, IsPresent, ▹-EndTrip, record_of-EndTrip, trailing-EndTrip, RoundTrip-EndTrip,
}
use jellyfishsdk.Buffer.VarInt.Inverse.{var_int-RoundTrip}
use jellyfishsdk.Buffer.Amounts.{
  IsAmount, IsPrice, satoshi_as_big_number-RoundTrip, max_price_as_big_number-RoundTrip,
}
use jellyfishsdk.Buffer.Texts.{IsString, compact_size_utf8_be-RoundTrip}
use jellyfishsdk.Buffer.Fields.Laws.{
  IsArray, ubool8-RoundTrip, ubool32-RoundTrip, compact_size_array-RoundTrip, read_array-empty,
}
use jellyfishsdk.Dftx.Fits.{IsSafe}
use jellyfishsdk.Dftx.Balance.{c_token_balance}
use jellyfishsdk.Dftx.Balance.RoundTrip.{
  IsTokenBalanceUint32, c_token_balance-RoundTrip, IsScriptBalances, c_script_balances-RoundTrip,
}
use jellyfishsdk.Dftx.Pool.{
  PoolSwap, c_pool_swap, PoolId, c_pool_id, CompositeSwap, c_composite_swap, PoolAddLiquidity,
  c_pool_add_liquidity, PoolRemoveLiquidity, c_pool_remove_liquidity, PoolCreatePair,
  c_pool_create_pair, PoolUpdatePair, c_pool_update_pair,
}

abbrev pub IsPoolSwap : {N S : Type 0} ⦃bn : BigNumber N⦄ → (S → Type 0) → PoolSwap N S → Type 0
IsPoolSwap IsWritten m =
    IsWritten m.from_script
    × (IsSafe m.from_token_id
        × (IsAmount m.from_amount
            × (IsWritten m.to_script × (IsSafe m.to_token_id × IsPrice m.max_price))))

pub c_pool_swap-RoundTrip :
    (N : Type 0) {S : Type 0} ⦃sb : SmartBuffer⦄ ⦃bn : BigNumber N⦄ (c_script : Codec S)
    (IsWritten : S → Type 0)
    → RoundTrip c_script IsWritten
    → RoundTrip {A = PoolSwap N S} (c_pool_swap c_script) (IsPoolSwap IsWritten)
unfolding c_pool_swap
c_pool_swap-RoundTrip N c_script IsWritten script_back =
    record_of-RoundTrip _ _ _ _ (λ m. refl)
      (▹-RoundTrip _ _ script_back (
        ▹-RoundTrip _ _ var_int-RoundTrip (
          ▹-RoundTrip _ _ (satoshi_as_big_number-RoundTrip N) (
            ▹-RoundTrip _ _ script_back
              (▹-RoundTrip _ _ var_int-RoundTrip (max_price_as_big_number-RoundTrip N))))))

abbrev pub IsPoolId : PoolId → Type 0
IsPoolId m = IsSafe m.id

pub c_pool_id-RoundTrip : ⦃sb : SmartBuffer⦄ → RoundTrip c_pool_id IsPoolId
unfolding c_pool_id
c_pool_id-RoundTrip = record_of-RoundTrip _ _ _ _ (λ m. refl) var_int-RoundTrip

abbrev pub IsCompositeSwap :
    {N S : Type 0} ⦃bn : BigNumber N⦄ → (S → Type 0) → CompositeSwap N S → Type 0
IsCompositeSwap IsWritten m = IsPoolSwap IsWritten m.pool_swap × IsArray IsPoolId m.pools

pub c_composite_swap-RoundTrip :
    (N : Type 0) {S : Type 0} ⦃sb : SmartBuffer⦄ ⦃bn : BigNumber N⦄ (c_script : Codec S)
    (IsWritten : S → Type 0)
    → RoundTrip c_script IsWritten
    → RoundTrip {A = CompositeSwap N S} (c_composite_swap c_script) (IsCompositeSwap IsWritten)
unfolding c_composite_swap
c_composite_swap-RoundTrip N c_script IsWritten script_back =
    record_of-RoundTrip _ _ _ _ (λ m. refl)
      (▹-RoundTrip _ _ (c_pool_swap-RoundTrip N c_script IsWritten script_back)
        (compact_size_array-RoundTrip _ _ c_pool_id-RoundTrip))

abbrev pub IsPoolAddLiquidity :
    {N S : Type 0} ⦃bn : BigNumber N⦄ → (S → Type 0) → PoolAddLiquidity N S → Type 0
IsPoolAddLiquidity IsWritten m =
    IsArray (IsScriptBalances IsWritten) m.from × IsWritten m.share_address

pub c_pool_add_liquidity-RoundTrip :
    (N : Type 0) {S : Type 0} ⦃sb : SmartBuffer⦄ ⦃bn : BigNumber N⦄ (c_script : Codec S)
    (IsWritten : S → Type 0)
    → RoundTrip c_script IsWritten
    → RoundTrip {A = PoolAddLiquidity N S}
        (c_pool_add_liquidity c_script)
        (IsPoolAddLiquidity IsWritten)
unfolding c_pool_add_liquidity
c_pool_add_liquidity-RoundTrip N c_script IsWritten script_back =
    record_of-RoundTrip _ _ _ _ (λ m. refl)
      (▹-RoundTrip _ _
        (compact_size_array-RoundTrip _ _
          (c_script_balances-RoundTrip N c_script IsWritten script_back))
        script_back)

abbrev pub IsPoolRemoveLiquidity :
    {N S : Type 0} ⦃bn : BigNumber N⦄ → (S → Type 0) → PoolRemoveLiquidity N S → Type 0
IsPoolRemoveLiquidity IsWritten m = IsWritten m.script × (IsSafe m.token_id × IsAmount m.amount)

pub c_pool_remove_liquidity-RoundTrip :
    (N : Type 0) {S : Type 0} ⦃sb : SmartBuffer⦄ ⦃bn : BigNumber N⦄ (c_script : Codec S)
    (IsWritten : S → Type 0)
    → RoundTrip c_script IsWritten
    → RoundTrip {A = PoolRemoveLiquidity N S}
        (c_pool_remove_liquidity c_script)
        (IsPoolRemoveLiquidity IsWritten)
unfolding c_pool_remove_liquidity
c_pool_remove_liquidity-RoundTrip N c_script IsWritten script_back =
    record_of-RoundTrip _ _ _ _ (λ m. refl)
      (▹-RoundTrip _ _ script_back
        (▹-RoundTrip _ _ var_int-RoundTrip (satoshi_as_big_number-RoundTrip N)))

abbrev pub IsPoolCreatePair :
    {N S : Type 0} ⦃bn : BigNumber N⦄ → (S → Type 0) → PoolCreatePair N S → Type 0
IsPoolCreatePair IsWritten m =
    IsSafe m.token_a
    × (IsSafe m.token_b
        × (IsAmount m.commission
            × (IsWritten m.owner_address
                × (Unit {0}
                    × (IsString m.pair_symbol
                        × IsPresent (IsArray IsTokenBalanceUint32) m.custom_rewards)))))

pub c_pool_create_pair-EndTrip :
    (N : Type 0) {S : Type 0} ⦃sb : SmartBuffer⦄ ⦃bn : BigNumber N⦄ (c_script : Codec S)
    (IsWritten : S → Type 0)
    → RoundTrip c_script IsWritten
    → EndTrip {A = PoolCreatePair N S} (c_pool_create_pair c_script) (IsPoolCreatePair IsWritten)
unfolding c_pool_create_pair
c_pool_create_pair-EndTrip N c_script IsWritten script_back =
    record_of-EndTrip _ _ _ _ (λ m. refl)
      (▹-EndTrip _ _ var_int-RoundTrip (
        ▹-EndTrip _ _ var_int-RoundTrip (
          ▹-EndTrip _ _ (satoshi_as_big_number-RoundTrip N) (
            ▹-EndTrip _ _ script_back (
              ▹-EndTrip _ _ ubool8-RoundTrip (
                ▹-EndTrip _ _ compact_size_utf8_be-RoundTrip (
                  trailing-EndTrip _ end_of_buffer (read_array-empty c_token_balance) (
                    RoundTrip-EndTrip _
                      (compact_size_array-RoundTrip _ _ (c_token_balance-RoundTrip N))))))))))

abbrev pub IsPoolUpdatePair :
    {N S : Type 0} ⦃bn : BigNumber N⦄ → (S → Type 0) → PoolUpdatePair N S → Type 0
IsPoolUpdatePair IsWritten m =
    IsSafe m.pool_id
    × (Unit {0}
        × (IsAmount m.commission
            × (IsWritten m.owner_address
                × IsPresent (IsArray IsTokenBalanceUint32) m.custom_rewards)))

pub c_pool_update_pair-EndTrip :
    (N : Type 0) {S : Type 0} ⦃sb : SmartBuffer⦄ ⦃bn : BigNumber N⦄ (c_script : Codec S)
    (IsWritten : S → Type 0)
    → RoundTrip c_script IsWritten
    → EndTrip {A = PoolUpdatePair N S} (c_pool_update_pair c_script) (IsPoolUpdatePair IsWritten)
unfolding c_pool_update_pair
c_pool_update_pair-EndTrip N c_script IsWritten script_back =
    record_of-EndTrip _ _ _ _ (λ m. refl)
      (▹-EndTrip _ _ var_int-RoundTrip (
        ▹-EndTrip _ _ ubool32-RoundTrip (
          ▹-EndTrip _ _ (satoshi_as_big_number-RoundTrip N) (
            ▹-EndTrip _ _ script_back (
              trailing-EndTrip _ end_of_buffer (read_array-empty c_token_balance) (
                RoundTrip-EndTrip _
                  (compact_size_array-RoundTrip _ _ (c_token_balance-RoundTrip N))))))))
