-- ===== src/Network/BlockSubsidy/Supply.antt =====
-- packages/jellyfish-network/src/BlockSubsidy.ts: the supply is the sum of the subsidies.
use jellyfishsdk.Prelude.{
  ℕ, zero, suc, ◌+◌, ◌-◌, ◌*◌, ◌/◌, ◌%◌, ◌≤◌, ◌≡◌, refl, arith, List, [], ◌∷◌, length, get_elem?,
  map, none, some, ltb, leb, ◌==◌, Bool-cases, inl, inr, ap, ap₂, ◌∙◌, sym, le→ltb, ne→==,
}
use jellyfishsdk.Platform.{BigNumber}
use jellyfishsdk.Network.BlockSubsidy.{
  CoinbaseSubsidyOptions, BlockSubsidy, milestones_from, milestone_plus,
  compute_block_reduction_subsidies, compute_reduction_supply_milestones, block_subsidy, get_supply,
  get_pre_eunos_supply, get_post_eunos_supply, get_block_subsidy, or_zero,
}
use jellyfishsdk.Network.BlockSubsidy.Reductions.{
  IsReduced, reduced, reduced_sum, reduced-end, reduced_sum-end, reduction_rounds-IsReduced,
  reduced-elem, milestones_from-elem, length-milestones_from,
}
use jellyfishsdk.Network.BlockSubsidy.Totals.{
  IsOptions, paid, base_supply, burned, subsidy, supply, supply_zero, supply_next,
}
use native.Mathlib.Nat.{le-div_iff_mul-le}

length-map : {A B : Type 0} (f : A → B) (xs : List A) → length (map f xs) ≡ length xs
length-map f [] = refl
length-map f (x ∷ xs) = ap suc (length-map f xs)

get_elem?-none : {A : Type 0} (xs : List A) (k : ℕ) → length xs ≤ k → get_elem? xs k ≡ none
get_elem?-none [] k h = refl
get_elem?-none (x ∷ xs) zero h = absurd (omega arith)
get_elem?-none (x ∷ xs) (suc k) h = get_elem?-none xs k (omega arith)

module _ {N : Type 0} ⦃bn : BigNumber N⦄ (o : CoinbaseSubsidyOptions) (ws : List ℕ) where
  -- The object with this list of reductions.
  abbrev made : BlockSubsidy N
  made =
      let subsidies = map bn.of_number (o.eunos_base_block_subsidy ∷ ws) in
      record {
        options = o;
        reduction_block_subsidies = subsidies;
        reduction_supply_milestones = milestones_from o (bn.of_number (base_supply o)) subsidies;
      }

  module _ (reductions : IsReduced o o.eunos_base_block_subsidy ws) where
    or_zero-elem :
        (k : ℕ)
        → or_zero (get_elem? made.reduction_block_subsidies k)
          ≡ bn.of_number (reduced o o.eunos_base_block_subsidy k)
    or_zero-elem k =
        let v = o.eunos_base_block_subsidy in
        elim (Bool-cases (leb k (length ws))) [
          | inl t ↦ rw (reduced-elem o v k ws reductions (ground arith))
          | inr t ↦ rw (
            get_elem?-none made.reduction_block_subsidies k
                (let same = length-map bn.of_number ws in ground arith),
            reduced-end o v k ws reductions (ground arith),
          )
        ]

    get_block_subsidy-made : (h : ℕ) → get_block_subsidy made h ≡ bn.of_number (subsidy o h)
    unfolding get_block_subsidy subsidy
    get_block_subsidy-made h = elim (Bool-cases (h == 0)) [
      | inl t ↦ rw t
      | inr t ↦ elim (Bool-cases (ltb h o.eunos_height)) [
        | inl u ↦ rw (t, u)
        | inr u ↦ rw (t, u) (or_zero-elem ((h - o.eunos_height) / o.emission_reduction_interval))
      ]
    ]

    get_post_eunos_supply-made :
        (h : ℕ)
        → get_post_eunos_supply made h
          ≡ some (bn.of_number (base_supply o + paid o (h + 1 - o.eunos_height)))
    unfolding get_post_eunos_supply milestone_plus
    get_post_eunos_supply-made h =
        let v = o.eunos_base_block_subsidy in
        let i = o.emission_reduction_interval in
        let d = h + 1 - o.eunos_height in
        let same = length-map bn.of_number ws in
        let many =
          length-milestones_from o (bn.of_number (base_supply o)) (bn.of_number v)
            (map bn.of_number ws) in
        elim (Bool-cases (leb (suc (length ws)) (d / i))) [
          | inl t ↦
              let last =
                milestones_from-elem {N = N} o (base_supply o) v (length ws) ws reductions
                  (omega arith) in
              let index : suc (length ws) - 1 ≡ length ws = omega arith in
              rw
                (
                  same,
                  t,
                  many,
                  same,
                  index,
                  last,
                  reduced_sum-end o v (d / i) ws reductions (ground arith),
                  reduced-end o v (d / i) ws reductions (ground arith),
                )
                (ap (λ n. some (bn.of_number n)) (omega arith))
          | inr t ↦
              rw
                (
                  same,
                  t,
                  milestones_from-elem o (base_supply o) v (d / i) ws reductions (ground arith),
                  reduced-elem o v (d / i) ws reductions (ground arith),
                  bn.multiplied_by_of (reduced o v (d / i)) (d % i),
                  bn.plus_of (base_supply o + reduced_sum o v (d / i) * i)
                      (reduced o v (d / i) * (d % i)),
                )
                (ap (λ n. some (bn.of_number n)) (omega arith))
        ]

    get_supply-made : (h : ℕ) → get_supply made h ≡ some (bn.of_number (supply o h))
    unfolding get_supply supply get_pre_eunos_supply
    get_supply-made h = elim (Bool-cases (ltb h o.eunos_height)) [
      | inl t ↦ rw (
        t,
        get_pre_eunos_supply,
        bn.multiplied_by_of o.pre_eunos_block_subsidy h,
        bn.plus_of o.genesis_block_subsidy (o.pre_eunos_block_subsidy * h),
      )
      | inr t ↦ rw t (get_post_eunos_supply-made h)
    ]

module _ (N : Type 0) ⦃bn : BigNumber N⦄ (o : CoinbaseSubsidyOptions) where
  block_subsidy-made :
      IsOptions o
      → (ws : List ℕ) × (block_subsidy o ≡ some (made {N = N} o ws))
        × IsReduced o o.eunos_base_block_subsidy ws
  unfolding block_subsidy compute_block_reduction_subsidies compute_reduction_supply_milestones
  block_subsidy-made v =
      let base = o.eunos_base_block_subsidy in
      let (ws, e, r, pos) =
        reduction_rounds-IsReduced {N = N} o (suc base) base v.reduction (omega arith) in
      let early = o.pre_eunos_block_subsidy * (o.eunos_height - 1) in
      (
        ws,
        rw (
          e,
          bn.multiplied_by_of o.pre_eunos_block_subsidy (o.eunos_height - 1),
          bn.plus_of o.genesis_block_subsidy early,
          bn.minus_of (o.genesis_block_subsidy + early) o.eunos_foundation_burn v.burn,
        ),
        r,
      )

  subsidy_past :
      (ws : List ℕ) (h : ℕ)
      → IsOptions o
      → IsReduced o o.eunos_base_block_subsidy ws
      → o.eunos_height + length ws * o.emission_reduction_interval ≤ h
      → subsidy o h ≡ 0
  unfolding subsidy
  subsidy_past ws h v r le =
      let pos = v.eunos in
      let many : length ws ≤ (h - o.eunos_height) / o.emission_reduction_interval =
        (le-div_iff_mul-le v.interval).1 (omega arith) in
      rw (
        ne→== h 0 (λ z. absurd (omega (arith, z))),
        le→ltb h o.eunos_height (omega arith),
        reduced-end o o.eunos_base_block_subsidy _ ws r many,
      )

  -- The subsidies of all blocks up to a height.
  unfoldable pub subsidies_up_to : BlockSubsidy N → ℕ → N
  subsidies_up_to s zero = get_block_subsidy s 0
  subsidies_up_to s (suc h) = bn.plus (subsidies_up_to s h) (get_block_subsidy s (suc h))

  subsidies_up_to-made :
      (ws : List ℕ) (h : ℕ)
      → IsOptions o
      → IsReduced o o.eunos_base_block_subsidy ws
      → subsidies_up_to (made o ws) h ≡ bn.of_number (supply o h + burned o h)
  unfolding subsidies_up_to subsidy
  subsidies_up_to-made ws zero v r = rw (supply_zero o v) (get_block_subsidy-made {N = N} o ws r 0)
  subsidies_up_to-made ws (suc h) v r =
      ap₂ bn.plus (subsidies_up_to-made ws h v r) (get_block_subsidy-made {N = N} o ws r (suc h))
      ∙ bn.plus_of (supply o h + burned o h) (subsidy o (suc h))
      ∙ ap bn.of_number (sym (supply_next o h v))

  -- The supply at a height, with what the foundation burned by then, is the sum of the subsidies of
  -- the blocks up to it, at heights behind the last reduction too. Constructing the object ends, and
  -- the supply is defined at every height. It assumes the options that reduce by at most everything,
  -- in intervals of at least a block, behind at least one block, and burn no more than there is.
  pub get_supply-subsidies_up_to :
      (height : ℕ)
      → IsOptions o
      → (s : BlockSubsidy N) × (total : N) × (block_subsidy o ≡ some s)
        × (get_supply s height ≡ some total)
        × (bn.plus total (bn.of_number (burned o height)) ≡ subsidies_up_to s height)
  get_supply-subsidies_up_to height v =
      let (ws, e, r) = block_subsidy-made v in
      (
        made o ws,
        bn.of_number (supply o height),
        e,
        get_supply-made o ws r height,
        bn.plus_of (supply o height) (burned o height) ∙ sym (subsidies_up_to-made ws height v r),
      )

  -- The reductions of the subsidy end: from some height on the subsidy of a block is 0.
  pub get_block_subsidy_end :
      IsOptions o
      → (s : BlockSubsidy N) × (last : ℕ) × (block_subsidy o ≡ some s)
        × ((more : ℕ) → get_block_subsidy s (last + more) ≡ bn.of_number 0)
  get_block_subsidy_end v =
      let (ws, e, r) = block_subsidy-made v in
      let last = o.eunos_height + length ws * o.emission_reduction_interval in
      (
        made o ws,
        last,
        e,
        λ more.
            get_block_subsidy-made o ws r (last + more)
            ∙ ap bn.of_number (subsidy_past ws (last + more) v r (omega arith)),
      )
