-- ===== src/Network/BlockSubsidy.antt =====
-- packages/jellyfish-network/src/BlockSubsidy.ts: the subsidy of a block, and the supply that all
-- blocks up to a height have.
pub mod Reductions
pub mod Totals
pub mod Supply
use jellyfishsdk.Prelude.{
  ℕ, zero, suc, ◌+◌, ◌-◌, ◌/◌, ◌%◌, List, [], ◌∷◌, length, get_elem?, Option, none, some, true,
  false, ltb, leb, ◌==◌, if◌then◌else◌,
}
use jellyfishsdk.Platform.{BigNumber}
use mathlib.Core.Option

-- Strings of digits are the numbers that they stand for.
pub record CoinbaseSubsidyOptions : Type 0 where
  pub eunos_height : ℕ
  pub genesis_block_subsidy : ℕ
  pub pre_eunos_block_subsidy : ℕ
  pub eunos_base_block_subsidy : ℕ
  pub eunos_foundation_burn : ℕ
  pub emission_reduction : ℕ
  pub emission_reduction_interval : ℕ

abbrev pub main_net_coinbase_subsidy_options : CoinbaseSubsidyOptions
main_net_coinbase_subsidy_options = record {
  eunos_height = 894000;
  genesis_block_subsidy = 59100003000000000;
  pre_eunos_block_subsidy = 20000000000;
  eunos_base_block_subsidy = 40504000000;
  eunos_foundation_burn = 26859289307829046;
  emission_reduction = 1658;
  emission_reduction_interval = 32690;
}

abbrev pub test_net_coinbase_subsidy_options : CoinbaseSubsidyOptions
test_net_coinbase_subsidy_options = record {
  eunos_height = 354950;
  genesis_block_subsidy = 30400004000000000;
  pre_eunos_block_subsidy = 20000000000;
  eunos_base_block_subsidy = 40504000000;
  eunos_foundation_burn = 0;
  emission_reduction = 1658;
  emission_reduction_interval = 32690;
}

pub record BlockSubsidy (N : Type 0) : Type 0 where
  pub options : CoinbaseSubsidyOptions
  pub reduction_block_subsidies : List N
  pub reduction_supply_milestones : List N

module _ {N : Type 0} ⦃bn : BigNumber N⦄ where
  -- The amount that one reduction takes off a subsidy.
  unfoldable pub reduction_amount : CoinbaseSubsidyOptions → N → N
  reduction_amount options previous = bn.integer_value (
      bn.divided_by (bn.multiplied_by previous (bn.of_number options.emission_reduction))
        (bn.of_number 100000))

  -- The rounds of `while (true)`, from the last subsidy of the list: those pushed after it.
  unfoldable pub reduction_rounds : CoinbaseSubsidyOptions → ℕ → N → Option (List N)
  reduction_rounds options zero previous = none
  reduction_rounds options (suc fuel) previous =
      elim (bn.is_zero (reduction_amount options previous)) [
        | true ↦ some (bn.of_number 0 ∷ [])
        | false ↦
            let reduced = bn.minus previous (reduction_amount options previous) in
            Option.map (λ rest. reduced ∷ rest) (reduction_rounds options fuel reduced)
      ]

  -- A round takes at least 1 off: one round more than the first subsidy is enough.
  unfoldable pub compute_block_reduction_subsidies : CoinbaseSubsidyOptions → Option (List N)
  compute_block_reduction_subsidies options =
      let base = options.eunos_base_block_subsidy in
      Option.map (λ rest. bn.of_number base ∷ rest)
        (reduction_rounds options (suc base) (bn.of_number base))

  -- From a milestone on: one for each subsidy.
  unfoldable pub milestones_from : CoinbaseSubsidyOptions → N → List N → List N
  milestones_from options milestone [] = milestone ∷ []
  milestones_from options milestone (subsidy ∷ []) = milestone ∷ []
  milestones_from options milestone (subsidy ∷ next ∷ rest) =
      milestone
      ∷ milestones_from options
          (bn.plus milestone
            (bn.multiplied_by subsidy (bn.of_number options.emission_reduction_interval)))
          (next ∷ rest)

  unfoldable pub compute_reduction_supply_milestones : CoinbaseSubsidyOptions → List N → List N
  compute_reduction_supply_milestones options subsidies =
      let pre_eunos_total_supply =
        bn.multiplied_by (bn.of_number options.pre_eunos_block_subsidy)
          (bn.of_number (options.eunos_height - 1)) in
      let base_supply =
        bn.minus (bn.plus (bn.of_number options.genesis_block_subsidy) pre_eunos_total_supply)
          (bn.of_number options.eunos_foundation_burn) in
      milestones_from options base_supply subsidies

  -- `new BlockSubsidy(options)`
  unfoldable pub block_subsidy : CoinbaseSubsidyOptions → Option (BlockSubsidy N)
  block_subsidy options =
      Option.map
        (λ subsidies. record {
          options = options;
          reduction_block_subsidies = subsidies;
          reduction_supply_milestones = compute_reduction_supply_milestones options subsidies;
        })
        (compute_block_reduction_subsidies options)

  unfoldable pub get_pre_eunos_supply : BlockSubsidy N → ℕ → N
  get_pre_eunos_supply s height =
      bn.plus (bn.of_number s.options.genesis_block_subsidy)
        (bn.multiplied_by (bn.of_number s.options.pre_eunos_block_subsidy) (bn.of_number height))

  -- What reads behind the end of a list is undefined, and so is what is computed from it.
  unfoldable pub milestone_plus : Option N → Option N → ℕ → Option N
  milestone_plus (some milestone) (some subsidy) remainder =
      some (bn.plus milestone (bn.multiplied_by subsidy (bn.of_number remainder)))
  milestone_plus (some milestone) none remainder = none
  milestone_plus none subsidy remainder = none

  unfoldable pub get_post_eunos_supply : BlockSubsidy N → ℕ → Option N
  get_post_eunos_supply s height =
      let post_eunos_diff = height + 1 - s.options.eunos_height in
      let reduction_count = post_eunos_diff / s.options.emission_reduction_interval in
      let reduction_remainder = post_eunos_diff % s.options.emission_reduction_interval in
      let milestones = s.reduction_supply_milestones in
      if leb (length s.reduction_block_subsidies) reduction_count
      then get_elem? milestones (length milestones - 1)
      else milestone_plus (get_elem? milestones reduction_count)
          (get_elem? s.reduction_block_subsidies reduction_count) reduction_remainder

  unfoldable pub get_supply : BlockSubsidy N → ℕ → Option N
  get_supply s height =
      if ltb height s.options.eunos_height
      then some (get_pre_eunos_supply s height)
      else get_post_eunos_supply s height

  -- Behind the end of the list the subsidy is 0.
  abbrev pub or_zero : Option N → N
  or_zero (some subsidy) = subsidy
  or_zero none = bn.of_number 0

  unfoldable pub get_block_subsidy : BlockSubsidy N → ℕ → N
  get_block_subsidy s height =
      let reduction_count =
        (height - s.options.eunos_height) / s.options.emission_reduction_interval in
      if height == 0
      then bn.of_number s.options.genesis_block_subsidy
      else if ltb height s.options.eunos_height
      then bn.of_number s.options.pre_eunos_block_subsidy
      else or_zero (get_elem? s.reduction_block_subsidies reduction_count)
