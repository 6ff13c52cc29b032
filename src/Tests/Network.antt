-- ===== src/Tests/Network.antt =====
-- packages/jellyfish-network/src/BlockSubsidy.ts: runs, and the theorems with the main network's
-- options.
use jellyfishsdk.Prelude.{ℕ, ◌*◌, ◌+◌, ◌≡◌, refl, arith, some}
use jellyfishsdk.Platform.{coin}
use jellyfishsdk.Network.BlockSubsidy.{
  CoinbaseSubsidyOptions, BlockSubsidy, main_net_coinbase_subsidy_options, block_subsidy,
  get_supply, get_block_subsidy, compute_block_reduction_subsidies, reduction_rounds,
  reduction_amount,
}
use jellyfishsdk.Network.BlockSubsidy.Totals.{IsOptions, burned}
use jellyfishsdk.Network.BlockSubsidy.Supply.{
  subsidies_up_to, get_supply-subsidies_up_to, get_block_subsidy_end,
}
use jellyfishsdk.Tests.Node.{scaled}
use mathlib.Core.Option

abbrev main_net : CoinbaseSubsidyOptions
main_net = main_net_coinbase_subsidy_options

main_net-IsOptions : IsOptions main_net
main_net-IsOptions = record {
  reduction = omega arith;
  interval = omega arith;
  eunos = omega arith;
  burn = omega arith;
}

-- The first block after the first reduction.
reduced_block :
    Option.map (λ s. get_block_subsidy s 926690) (block_subsidy {N = ℕ} main_net)
    ≡ some (39832443680 * coin)
unfolding block_subsidy get_block_subsidy compute_block_reduction_subsidies reduction_rounds
    reduction_amount
reduced_block = refl

get_supply-subsidies_up_to_example :
    (s : BlockSubsidy ℕ) × (total : ℕ) × (block_subsidy main_net ≡ some s)
    × (get_supply s 1000000 ≡ some total)
    × (scaled.plus total (scaled.of_number (burned main_net 1000000))
        ≡ subsidies_up_to ℕ main_net s 1000000)
get_supply-subsidies_up_to_example =
    get_supply-subsidies_up_to ℕ main_net 1000000 main_net-IsOptions

get_block_subsidy_end_example :
    (s : BlockSubsidy ℕ) × (last : ℕ) × (block_subsidy main_net ≡ some s)
    × ((more : ℕ) → get_block_subsidy s (last + more) ≡ scaled.of_number 0)
get_block_subsidy_end_example = get_block_subsidy_end ℕ main_net main_net-IsOptions
