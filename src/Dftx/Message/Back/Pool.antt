-- ===== src/Dftx/Message/Back/Pool.antt =====
-- packages/jellyfish-transaction/src/script/dftx/dftx.ts: the messages of Dftx/Pool.
use jellyfishsdk.Prelude.{refl}
use jellyfishsdk.Platform.{SmartBuffer, BigNumber}
use jellyfishsdk.Buffer.Codec.{Codec, RoundTrip}
use jellyfishsdk.Buffer.Codec.Ending.{RoundTrip-EndTrip}
use jellyfishsdk.Dftx.Pool.{
  c_pool_swap, c_composite_swap, c_pool_add_liquidity, c_pool_remove_liquidity, c_pool_create_pair,
  c_pool_update_pair,
}
use jellyfishsdk.Dftx.Pool.RoundTrip.{
  IsPoolSwap, IsCompositeSwap, IsPoolAddLiquidity, IsPoolRemoveLiquidity, IsPoolCreatePair,
  IsPoolUpdatePair, c_pool_swap-RoundTrip, c_composite_swap-RoundTrip,
  c_pool_add_liquidity-RoundTrip, c_pool_remove_liquidity-RoundTrip, c_pool_create_pair-EndTrip,
  c_pool_update_pair-EndTrip,
}
use jellyfishsdk.Dftx.Message.{
  type_of, pool_swap, composite_swap, pool_add_liquidity, pool_remove_liquidity, pool_create_pair,
  pool_update_pair,
}
use jellyfishsdk.Dftx.Message.Dispatch.{readers, find_reader}
use jellyfishsdk.Dftx.Message.Dispatch.{write_data}
use jellyfishsdk.Dftx.Pool.{
  PoolSwap, CompositeSwap, PoolAddLiquidity, PoolRemoveLiquidity, PoolCreatePair, PoolUpdatePair,
}
use jellyfishsdk.Dftx.Message.Back.{MessageBack, mapped_back}

module _ {N S : Type 0} ⦃sb : SmartBuffer⦄ ⦃bn : BigNumber N⦄ (c_script : Codec S)
    (IsWritten : S → Type 0) (script_back : RoundTrip c_script IsWritten) where
  pub pool_swap_back :
      (m : PoolSwap N S)
      → IsPoolSwap IsWritten m
      → MessageBack {N = N} c_script IsWritten (pool_swap m)
  unfolding write_data type_of readers find_reader
  pool_swap_back m h =
      mapped_back {N = N} c_script IsWritten pool_swap (c_pool_swap c_script) (IsPoolSwap IsWritten)
        (RoundTrip-EndTrip (c_pool_swap c_script)
          (c_pool_swap-RoundTrip N c_script IsWritten script_back))
        m h refl refl

  pub composite_swap_back :
      (m : CompositeSwap N S)
      → IsCompositeSwap IsWritten m
      → MessageBack {N = N} c_script IsWritten (composite_swap m)
  unfolding write_data type_of readers find_reader
  composite_swap_back m h =
      mapped_back {N = N} c_script IsWritten composite_swap (c_composite_swap c_script)
        (IsCompositeSwap IsWritten)
        (RoundTrip-EndTrip (c_composite_swap c_script)
          (c_composite_swap-RoundTrip N c_script IsWritten script_back))
        m h refl refl

  pub pool_add_liquidity_back :
      (m : PoolAddLiquidity N S)
      → IsPoolAddLiquidity IsWritten m
      → MessageBack {N = N} c_script IsWritten (pool_add_liquidity m)
  unfolding write_data type_of readers find_reader
  pool_add_liquidity_back m h =
      mapped_back {N = N} c_script IsWritten pool_add_liquidity (c_pool_add_liquidity c_script)
        (IsPoolAddLiquidity IsWritten)
        (RoundTrip-EndTrip (c_pool_add_liquidity c_script)
          (c_pool_add_liquidity-RoundTrip N c_script IsWritten script_back))
        m h refl refl

  pub pool_remove_liquidity_back :
      (m : PoolRemoveLiquidity N S)
      → IsPoolRemoveLiquidity IsWritten m
      → MessageBack {N = N} c_script IsWritten (pool_remove_liquidity m)
  unfolding write_data type_of readers find_reader
  pool_remove_liquidity_back m h =
      mapped_back {N = N} c_script IsWritten pool_remove_liquidity
        (c_pool_remove_liquidity c_script) (IsPoolRemoveLiquidity IsWritten)
        (RoundTrip-EndTrip (c_pool_remove_liquidity c_script)
          (c_pool_remove_liquidity-RoundTrip N c_script IsWritten script_back))
        m h refl refl

  pub pool_create_pair_back :
      (m : PoolCreatePair N S)
      → IsPoolCreatePair IsWritten m
      → MessageBack {N = N} c_script IsWritten (pool_create_pair m)
  unfolding write_data type_of readers find_reader
  pool_create_pair_back m h =
      mapped_back {N = N} c_script IsWritten pool_create_pair (c_pool_create_pair c_script)
        (IsPoolCreatePair IsWritten) (c_pool_create_pair-EndTrip N c_script IsWritten script_back) m
        h refl refl

  pub pool_update_pair_back :
      (m : PoolUpdatePair N S)
      → IsPoolUpdatePair IsWritten m
      → MessageBack {N = N} c_script IsWritten (pool_update_pair m)
  unfolding write_data type_of readers find_reader
  pool_update_pair_back m h =
      mapped_back {N = N} c_script IsWritten pool_update_pair (c_pool_update_pair c_script)
        (IsPoolUpdatePair IsWritten) (c_pool_update_pair-EndTrip N c_script IsWritten script_back) m
        h refl refl
