-- ===== src/Network/BlockSubsidy/Totals.antt =====
-- packages/jellyfish-network/src/BlockSubsidy.ts: supply and subsidies as natural numbers.
use jellyfishsdk.Prelude.{
  ℕ, suc, ◌+◌, ◌-◌, ◌*◌, ◌/◌, ◌%◌, ◌≤◌, ◌<◌, ◌≡◌, arith, true, ltb, ◌==◌, if◌then◌else◌, Bool-cases,
  inl, inr, ◌⊎◌, ap, lt→ltb, ne→==,
}
use jellyfishsdk.Network.BlockSubsidy.{CoinbaseSubsidyOptions}
use jellyfishsdk.Network.BlockSubsidy.Reductions.{reduced, reduced_sum, reduced_sum-suc}
use native.Mathlib.Numerals.{add-one}
use native.Mathlib.Nat.{zero-div, zero-mod, mod-lt, div-add-mod', div-eq_of_lt-le}

-- A reduction takes at most everything off, after at least one block; there are blocks before
-- Eunos; and no more is burned than there is.
pub record IsOptions (o : CoinbaseSubsidyOptions) : Type 0 where
  pub reduction : o.emission_reduction ≤ 100000
  pub interval : 0 < o.emission_reduction_interval
  pub eunos : 0 < o.eunos_height
  pub burn :
      o.eunos_foundation_burn
      ≤ o.genesis_block_subsidy + o.pre_eunos_block_subsidy * (o.eunos_height - 1)

-- The subsidies of the first `d` blocks from Eunos on.
abbrev pub paid : CoinbaseSubsidyOptions → ℕ → ℕ
paid o d =
    reduced_sum o o.eunos_base_block_subsidy (d / o.emission_reduction_interval)
      * o.emission_reduction_interval
    + reduced o o.eunos_base_block_subsidy (d / o.emission_reduction_interval)
      * (d % o.emission_reduction_interval)

-- What stands behind the burn.
abbrev pub base_supply : CoinbaseSubsidyOptions → ℕ
base_supply o =
    o.genesis_block_subsidy
    + o.pre_eunos_block_subsidy * (o.eunos_height - 1)
    - o.eunos_foundation_burn

-- The next block is in the same interval, or is the first of the next one.
div_cases :
    (d i : ℕ)
    → 0 < i
    → (((d + 1) / i ≡ d / i) × ((d + 1) % i ≡ d % i + 1))
      ⊎ (((d + 1) / i ≡ d / i + 1) × ((d + 1) % i ≡ 0) × (d % i + 1 ≡ i))
div_cases d i pos =
    let q = d / i in
    let r = d % i in
    let whole : q * i + r ≡ d = div-add-mod' d i in
    let next : (d + 1) / i * i + (d + 1) % i ≡ d + 1 = div-add-mod' (d + 1) i in
    let small : r < i = mod-lt d pos in
    elim (Bool-cases (ltb (r + 1) i)) [
      | inl t ↦
          let same : (d + 1) / i ≡ q =
            div-eq_of_lt-le i (omega arith) (let lt : r + 1 < i = ground arith in omega arith) in
          let times = ap (λ (k : ℕ). k * i) same in inl (same, omega arith)
      | inr t ↦
          let last : r + 1 ≡ i = ground arith in
          let more : (d + 1) / i ≡ q + 1 = div-eq_of_lt-le i (omega arith) (omega arith) in
          let times = ap (λ (k : ℕ). k * i) more in inr (more, omega arith, last)
    ]

module _ (o : CoinbaseSubsidyOptions) where
  paid_zero : paid o 0 ≡ 0
  unfolding reduced_sum
  paid_zero =
      rw (zero-div o.emission_reduction_interval, zero-mod o.emission_reduction_interval)
        (omega arith)

  paid_next :
      (d : ℕ)
      → 0 < o.emission_reduction_interval
      → paid o (d + 1)
        ≡ paid o d + reduced o o.eunos_base_block_subsidy (d / o.emission_reduction_interval)
  paid_next d pos = elim (div_cases d o.emission_reduction_interval pos) [
    | inl (q, r) ↦ rw (q, r) (omega arith)
    | inr (q, r, last) ↦
        let k = d / o.emission_reduction_interval in
        let v = reduced o o.eunos_base_block_subsidy k in
        let whole = ap (λ (t : ℕ). v * t) last in
        rw (q, r, add-one k, reduced_sum-suc o o.eunos_base_block_subsidy k) (omega arith)
  ]

  -- What the foundation burned up to a height.
  abbrev pub burned : ℕ → ℕ
  burned height = if ltb height o.eunos_height then 0 else o.eunos_foundation_burn

  unfoldable pub subsidy : ℕ → ℕ
  subsidy height =
      if height == 0
      then o.genesis_block_subsidy
      else if ltb height o.eunos_height
      then o.pre_eunos_block_subsidy
      else reduced o o.eunos_base_block_subsidy
          ((height - o.eunos_height) / o.emission_reduction_interval)

  unfoldable pub supply : ℕ → ℕ
  supply height =
      if ltb height o.eunos_height
      then o.genesis_block_subsidy + o.pre_eunos_block_subsidy * height
      else base_supply o + paid o (height + 1 - o.eunos_height)

  pub supply_zero : IsOptions o → supply 0 + burned 0 ≡ o.genesis_block_subsidy
  unfolding supply
  supply_zero v = rw (lt→ltb 0 o.eunos_height v.eunos) (omega arith)

  pub supply_next :
      (h : ℕ)
      → IsOptions o
      → supply (suc h) + burned (suc h) ≡ supply h + burned h + subsidy (suc h)
  unfolding supply subsidy
  supply_next h v = elim (Bool-cases (ltb (suc h) o.eunos_height)) [
    | inl t ↦
        let e : ltb h o.eunos_height ≡ true = ground arith in
        rw (t, e, ne→== (suc h) 0 (λ z. absurd (omega (arith, z)))) (omega arith)
    | inr t ↦
        let d = suc h - o.eunos_height in
        let next : suc h + 1 - o.eunos_height ≡ d + 1 = ground arith in
        let paid_later = paid_next d v.interval in
        rw (t, ne→== (suc h) 0 (λ z. absurd (omega (arith, z))), next, paid_later)
          (elim (Bool-cases (ltb h o.eunos_height)) [
            | inl first ↦
                let last : h ≡ o.eunos_height - 1 = ground arith in
                let zeroth : suc h - o.eunos_height ≡ 0 = ground arith in
                rw (first, zeroth, paid_zero) (let b = v.burn in rw last (omega arith))
            | inr later ↦
                let same : h + 1 - o.eunos_height ≡ d = ground arith in
                rw (later, same) (omega arith)
          ])
  ]
