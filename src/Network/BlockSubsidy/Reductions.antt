-- ===== src/Network/BlockSubsidy/Reductions.antt =====
-- packages/jellyfish-network/src/BlockSubsidy.ts: the reductions end, and the lists of subsidies
-- and milestones hold what the plain numbers say.
use jellyfishsdk.Prelude.{
  ℕ, zero, suc, ◌+◌, ◌-◌, ◌*◌, ◌/◌, ◌≤◌, ◌<◌, ◌≡◌, refl, arith, List, [], ◌∷◌, length, get_elem?,
  map, some, ◌==◌, if◌then◌else◌, Bool-cases, inl, inr, ap,
}
use jellyfishsdk.Platform.{BigNumber}
use jellyfishsdk.Network.BlockSubsidy.{
  CoinbaseSubsidyOptions, reduction_amount, reduction_rounds, milestones_from,
}
use native.Mathlib.Nat.{mul-le-mul_left}

-- One reduction of a number of satoshis, which ends with 0.
abbrev pub taken_off : CoinbaseSubsidyOptions → ℕ → ℕ
taken_off o v = v * o.emission_reduction / 100000

abbrev pub reduce : CoinbaseSubsidyOptions → ℕ → ℕ
reduce o v = if taken_off o v == 0 then 0 else v - taken_off o v

-- The subsidy after some reductions, and the sum of the subsidies before them.
unfoldable pub reduced : CoinbaseSubsidyOptions → ℕ → ℕ → ℕ
reduced o v zero = v
reduced o v (suc k) = reduced o (reduce o v) k

unfoldable pub reduced_sum : CoinbaseSubsidyOptions → ℕ → ℕ → ℕ
reduced_sum o v zero = 0
reduced_sum o v (suc k) = v + reduced_sum o (reduce o v) k

-- Each number of the list is the one before it reduced, down to 0.
abbrev pub IsReduced : CoinbaseSubsidyOptions → ℕ → List ℕ → Type 0
IsReduced o v [] = v ≡ 0
IsReduced o v (w ∷ ws) = (w ≡ reduce o v) × IsReduced o w ws

module _ (o : CoinbaseSubsidyOptions) where
  reduce_zero : reduce o 0 ≡ 0
  reduce_zero = ground arith

  reduced_zero : (k : ℕ) → reduced o 0 k ≡ 0
  unfolding reduced
  reduced_zero zero = refl
  reduced_zero (suc k) = rw reduce_zero (reduced_zero k)

  reduced_sum_zero : (k : ℕ) → reduced_sum o 0 k ≡ 0
  unfolding reduced_sum
  reduced_sum_zero zero = refl
  reduced_sum_zero (suc k) = rw reduce_zero (let ih = reduced_sum_zero k in omega arith)

  pub reduced_sum-suc : (v k : ℕ) → reduced_sum o v (suc k) ≡ reduced_sum o v k + reduced o v k
  unfolding reduced_sum reduced
  reduced_sum-suc v zero = omega arith
  reduced_sum-suc v (suc k) = let ih = reduced_sum-suc (reduce o v) k in omega arith

  -- Behind the end of the list all is 0.
  pub reduced-end : (v k : ℕ) (ws : List ℕ) → IsReduced o v ws → length ws ≤ k → reduced o v k ≡ 0
  unfolding reduced
  reduced-end v k [] h le = rw h (reduced_zero k)
  reduced-end v zero (w ∷ ws) h le = absurd (omega arith)
  reduced-end v (suc k) (w ∷ ws) (e, h) le = rw (← e) (reduced-end w k ws h (omega arith))

  pub reduced_sum-end :
      (v k : ℕ) (ws : List ℕ)
      → IsReduced o v ws
      → length ws ≤ k
      → reduced_sum o v k ≡ reduced_sum o v (length ws)
  unfolding reduced_sum
  reduced_sum-end v k [] h le = rw h (reduced_sum_zero k)
  reduced_sum-end v zero (w ∷ ws) h le = absurd (omega arith)
  reduced_sum-end v (suc k) (w ∷ ws) (e, h) le =
      rw (← e) (ap (λ t. v + t) (reduced_sum-end w k ws h (omega arith)))

  taken_off-le : (v : ℕ) → o.emission_reduction ≤ 100000 → taken_off o v ≤ v
  taken_off-le v h = let le = mul-le-mul_left v h in omega arith

module _ {N : Type 0} ⦃bn : BigNumber N⦄ (o : CoinbaseSubsidyOptions) where
  reduction_amount_of : (v : ℕ) → reduction_amount o (bn.of_number v) ≡ bn.of_number (taken_off o v)
  unfolding reduction_amount
  reduction_amount_of v = rw (
    bn.multiplied_by_of v o.emission_reduction,
    bn.integer_value_of (v * o.emission_reduction),
    reduction_amount,
  )

  -- More rounds than the subsidy has satoshis are enough.
  pub reduction_rounds-IsReduced :
      (fuel v : ℕ)
      → o.emission_reduction ≤ 100000
      → v < fuel
      → (ws : List ℕ) × (reduction_rounds o fuel (bn.of_number v) ≡ some (map bn.of_number ws))
        × IsReduced o v ws
        × (0 < length ws)
  unfolding reduction_rounds
  reduction_rounds-IsReduced zero v le h = absurd (omega arith)
  reduction_rounds-IsReduced (suc fuel) v le h = elim (Bool-cases (taken_off o v == 0)) [
    | inl t ↦ (
      0 ∷ [],
      rw (reduction_amount_of v, bn.is_zero_of (taken_off o v), t, reduction_rounds),
      (rw t, refl),
      omega arith,
    )
    | inr t ↦
        let less : taken_off o v ≤ v = taken_off-le o v le in
        let (ws, e, r, pos) =
          reduction_rounds-IsReduced fuel (v - taken_off o v) le (ground arith) in
        (
          (v - taken_off o v) ∷ ws,
          rw (
            reduction_amount_of v,
            bn.is_zero_of (taken_off o v),
            t,
            reduction_amount_of v,
            bn.minus_of v (taken_off o v) less,
            e,
            reduction_rounds,
          ),
          (rw t, r),
          omega arith,
        )
  ]

  pub reduced-elem :
      (v k : ℕ) (ws : List ℕ)
      → IsReduced o v ws
      → k ≤ length ws
      → get_elem? (map bn.of_number (v ∷ ws)) k ≡ some (bn.of_number (reduced o v k))
  unfolding reduced
  reduced-elem v zero ws h le = refl
  reduced-elem v (suc k) [] h le = absurd (omega arith)
  reduced-elem v (suc k) (w ∷ ws) (e, h) le = rw (← e) (reduced-elem w k ws h (omega arith))

  pub milestones_from-elem :
      (b v k : ℕ) (ws : List ℕ)
      → IsReduced o v ws
      → k ≤ length ws
      → get_elem? (milestones_from o (bn.of_number b) (map bn.of_number (v ∷ ws))) k
        ≡ some (bn.of_number (b + reduced_sum o v k * o.emission_reduction_interval))
  unfolding milestones_from reduced_sum
  milestones_from-elem b v zero [] h le = ap (λ t. some (bn.of_number t)) (omega arith)
  milestones_from-elem b v zero (w ∷ ws) h le = ap (λ t. some (bn.of_number t)) (omega arith)
  milestones_from-elem b v (suc k) [] h le = absurd (omega arith)
  milestones_from-elem b v (suc k) (w ∷ ws) (e, h) le =
      let i = o.emission_reduction_interval in
      let sum : b + v * i + reduced_sum o w k * i ≡ b + (v + reduced_sum o w k) * i = grind arith in
      rw (
        bn.multiplied_by_of v i,
        bn.plus_of b (v * i),
        milestones_from-elem (b + v * i) w k ws h (omega arith),
        sum,
        e,
      )

  pub length-milestones_from :
      (b v : N) (ws : List N) → length (milestones_from o b (v ∷ ws)) ≡ suc (length ws)
  unfolding milestones_from
  length-milestones_from b v [] = refl
  length-milestones_from b v (w ∷ ws) = ap suc (
      length-milestones_from
        (bn.plus b (bn.multiplied_by v (bn.of_number o.emission_reduction_interval))) w ws)
