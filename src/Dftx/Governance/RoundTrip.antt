-- ===== src/Dftx/Governance/RoundTrip.antt =====
-- packages/jellyfish-transaction/src/script/dftx/dftx_governance.ts: governance variables with the
-- two known keys are read back.
use jellyfishsdk.Prelude.{
  ◌^◌, ℕ, zero, suc, ◌<◌, ◌≤◌, ◌≡◌, refl, arith, List, [], ◌∷◌, ◌++◌, append_assoc, append-nil,
  length, length-append, All, All-append, ok, err, lt→ltb, le→ltb, end_of_buffer,
}
use jellyfishsdk.Platform.{IsByte, SmartBuffer, BigNumber}
use jellyfishsdk.Buffer.Codec.{RoundTrip, write_each, array-RoundTrip}
use jellyfishsdk.Buffer.Codec.Ending.{EndTrip, record_of-EndTrip}
use jellyfishsdk.Buffer.Codec.{chain, ◌▹◌}
use jellyfishsdk.Buffer.Words.{bytes32, uint32, read-bytes32}
use jellyfishsdk.Buffer.Utf8.{encode, encode_char}
use jellyfishsdk.Buffer.Amounts.{IsAmount, satoshi_as_big_number-RoundTrip}
use jellyfishsdk.Buffer.Texts.{IsString, read_text, compact_size_utf8_be-RoundTrip}
use jellyfishsdk.Buffer.CompactSize.{read_compact_size-empty}
use jellyfishsdk.Dftx.Proposals.{c_liq_pool_split}
use jellyfishsdk.Dftx.Proposals.RoundTrip.{IsLiqPoolSplit, c_liq_pool_split-RoundTrip}
use jellyfishsdk.Dftx.Governance.{
  GovernanceVar, lp_daily_reward, lp_splits, unmapped_var, lp_daily_reward_key, lp_splits_key,
  key_of, read_reward, read_splits, read_governance_var, write_value, write_governance_var,
  read_governance_vars, c_governance_var, governance_vars, SetGovernance, SetGovernanceHeight,
  c_set_governance, c_set_governance_height,
}

daily_key-IsString : IsString lp_daily_reward_key
unfolding encode encode_char
daily_key-IsString = (ground arith, omega arith)

splits_key-IsString : IsString lp_splits_key
unfolding encode encode_char
splits_key-IsString = (ground arith, omega arith)

-- A known variable that fits. An unmapped one takes all the bytes behind it, and is left out.
abbrev pub IsGovernanceVar : {N : Type 0} ⦃bn : BigNumber N⦄ → GovernanceVar N → Type 0
IsGovernanceVar (lp_daily_reward value) = IsAmount value
IsGovernanceVar (lp_splits value) = All IsLiqPoolSplit value × (length value < 256)
IsGovernanceVar (unmapped_var key value) = ⊥

abbrev pub IsSetGovernance : {N : Type 0} ⦃bn : BigNumber N⦄ → SetGovernance N → Type 0
IsSetGovernance m = All IsGovernanceVar m.governance_vars

abbrev pub IsSetGovernanceHeight : {N : Type 0} ⦃bn : BigNumber N⦄ → SetGovernanceHeight N → Type 0
IsSetGovernanceHeight m = All IsGovernanceVar m.governance_vars × (m.activation_height < 2 ^ 32)

module _ (N : Type 0) ⦃sb : SmartBuffer⦄ ⦃bn : BigNumber N⦄ where
  pub c_governance_var-RoundTrip :
      (reserved : ℕ) → RoundTrip {A = GovernanceVar N} (c_governance_var reserved) IsGovernanceVar
  unfolding read_governance_var write_governance_var write_value read_reward read_splits key_of
  c_governance_var-RoundTrip reserved (lp_daily_reward value) h =
      let (k, wk, bk, rk) = compact_size_utf8_be-RoundTrip lp_daily_reward_key daily_key-IsString in
      let (xs, wx, bx, rx) = satoshi_as_big_number-RoundTrip N value h in
      (
        k ++ xs,
        rw (wk, wx),
        All-append IsByte k xs bk bx,
        λ rest. rw (append_assoc k xs rest, rk (xs ++ rest), rx rest),
      )
  c_governance_var-RoundTrip reserved (lp_splits value) (h, fits) =
      let (k, wk, bk, rk) = compact_size_utf8_be-RoundTrip lp_splits_key splits_key-IsString in
      let (xs, wx, bx, rx) =
        array-RoundTrip c_liq_pool_split IsLiqPoolSplit (c_liq_pool_split-RoundTrip N)
          (length value) value (h, refl) in
      (
        k ++ (length value ∷ xs),
        rw (wk, sb.write_uint8_lem (length value) fits, wx),
        All-append IsByte k (length value ∷ xs) bk (fits, bx),
        λ rest. rw (
          append_assoc k (length value ∷ xs) rest,
          rk (length value ∷ (xs ++ rest)),
          sb.read_uint8_lem (length value) (xs ++ rest),
          rx rest,
        ),
      )
  c_governance_var-RoundTrip reserved (unmapped_var key value) h = absurd h

  read_governance_var-empty :
      (reserved : ℕ) → read_governance_var {N = N} reserved [] ≡ err end_of_buffer
  unfolding read_governance_var read_text
  read_governance_var-empty reserved = rw read_compact_size-empty

  variable_pos :
      (reserved : ℕ) (gv : GovernanceVar N) (bs : List ℕ)
      → read_governance_var reserved bs ≡ ok (gv, [])
      → 0 < length bs
  variable_pos reserved gv [] e = cc (read_governance_var-empty reserved)
  variable_pos reserved gv (b ∷ bs) e = omega arith

  read_governance_vars-end :
      (fuel reserved : ℕ) (rest : List ℕ)
      → length rest ≡ reserved
      → read_governance_vars {N = N} fuel reserved rest ≡ ok ([], rest)
  unfolding read_governance_vars
  read_governance_vars-end zero reserved rest e =
      rw (sb.remaining_lem rest, le→ltb reserved (length rest) (omega arith))
  read_governance_vars-end (suc fuel) reserved rest e =
      rw (sb.remaining_lem rest, le→ltb reserved (length rest) (omega arith), read_governance_vars)

  read_governance_vars-cons :
      (fuel reserved : ℕ) (bs mid rest : List ℕ) (gv : GovernanceVar N)
      (gvs : List (GovernanceVar N))
      → reserved < length bs
      → read_governance_var reserved bs ≡ ok (gv, mid)
      → read_governance_vars fuel reserved mid ≡ ok (gvs, rest)
      → read_governance_vars (suc fuel) reserved bs ≡ ok (gv ∷ gvs, rest)
  unfolding read_governance_vars
  read_governance_vars-cons fuel reserved bs mid rest gv gvs lt e es =
      rw (sb.remaining_lem bs, lt→ltb reserved (length bs) lt, e, es, read_governance_vars)

  -- As many reserved bytes as follow the variables end the loop.
  vars_back :
      (reserved : ℕ) (gvs : List (GovernanceVar N))
      → All IsGovernanceVar gvs
      → (bs : List ℕ) × (write_each (c_governance_var reserved) gvs ≡ ok bs)
        × All IsByte bs
        × ((rest : List ℕ) (fuel : ℕ)
            → length rest ≡ reserved
            → length bs ≤ fuel
            → read_governance_vars fuel reserved (bs ++ rest) ≡ ok (gvs, rest))
  unfolding write_each
  vars_back reserved [] h =
      ([], refl, tt, λ rest fuel e le. read_governance_vars-end fuel reserved rest e)
  vars_back reserved (gv ∷ gvs) (h, hs) =
      let (xs, wx, bx, rx) = c_governance_var-RoundTrip reserved gv h in
      let (ys, wy, by, ry) = vars_back reserved gvs hs in
      (xs ++ ys, rw (wx, wy), All-append IsByte xs ys bx by, looped xs ys rx ry)
    where
      looped :
          (xs ys : List ℕ)
          → ((rest : List ℕ) → read_governance_var reserved (xs ++ rest) ≡ ok (gv, rest))
          → ((rest : List ℕ) (fuel : ℕ)
              → length rest ≡ reserved
              → length ys ≤ fuel
              → read_governance_vars fuel reserved (ys ++ rest) ≡ ok (gvs, rest))
          → (rest : List ℕ) (fuel : ℕ) → length rest ≡ reserved
          → length (xs ++ ys) ≤ fuel
          → read_governance_vars fuel reserved ((xs ++ ys) ++ rest) ≡ ok (gv ∷ gvs, rest)
      looped xs ys rx ry rest zero e le = absurd (
          let pos = variable_pos reserved gv (xs ++ []) (rx []) in
          let same = length-append xs [] in let both = length-append xs ys in omega arith)
      looped xs ys rx ry rest (suc fuel) e le =
          let pos = variable_pos reserved gv (xs ++ []) (rx []) in
          let same = length-append xs [] in
          let both = length-append xs ys in
          let all = length-append xs (ys ++ rest) in
          let tail = length-append ys rest in
          rw (
            append_assoc xs ys rest,
            read_governance_vars-cons fuel reserved (xs ++ (ys ++ rest)) (ys ++ rest) rest gv gvs
                (omega arith) (rx (ys ++ rest)) (ry rest fuel e (omega arith)),
          )

  -- Governance variables with known keys that fit are written, as bytes, and reading gives them
  -- back from a buffer with exactly the reserved bytes behind them, which it leaves.
  pub governance_vars_back :
      (reserved : ℕ) (gvs : List (GovernanceVar N))
      → All IsGovernanceVar gvs
      → (bs : List ℕ) × ((governance_vars reserved).to_buffer gvs ≡ ok bs)
        × All IsByte bs
        × ((rest : List ℕ)
            → length rest ≡ reserved
            → (governance_vars reserved).from_buffer (bs ++ rest) ≡ ok (gvs, rest))
  governance_vars_back reserved gvs h =
      let (bs, w, b, r) = vars_back reserved gvs h in
      (
        bs,
        w,
        b,
        λ rest e. let both = length-append bs rest in r rest (length (bs ++ rest)) e (omega arith),
      )

  pub c_set_governance-EndTrip : EndTrip {A = SetGovernance N} c_set_governance IsSetGovernance
  unfolding c_set_governance
  c_set_governance-EndTrip =
      record_of-EndTrip (λ m. m.governance_vars) (λ vars. record { governance_vars = vars })
        (governance_vars 0) (All IsGovernanceVar) (λ b. refl)
        (λ gvs h.
          let (bs, w, b, r) = governance_vars_back 0 gvs h in
          (bs, w, b, rw (← append-nil bs) (r [] refl)))

  -- The four bytes of the height end the loop.
  with_height :
      EndTrip {A = List (GovernanceVar N) × ℕ}
        (governance_vars 4 ▹ uint32)
        (λ p. All IsGovernanceVar p.0 × (p.1 < 2 ^ 32))
  unfolding ◌▹◌ chain
  with_height (gvs, height) (h, fits) =
      let (bs, w, b, r) = governance_vars_back 4 gvs h in
      (
        bs ++ bytes32 height,
        rw (w, sb.write_uint32_le_lem height fits),
        All-append IsByte bs (bytes32 height) b (omega arith),
        rw (r (bytes32 height) refl, ← append-nil (bytes32 height), read-bytes32 height []),
      )

  pub c_set_governance_height-EndTrip :
      EndTrip {A = SetGovernanceHeight N} c_set_governance_height IsSetGovernanceHeight
  unfolding c_set_governance_height
  c_set_governance_height-EndTrip =
      record_of-EndTrip (λ m. (m.governance_vars, m.activation_height))
        (λ (vars, height). record { governance_vars = vars; activation_height = height })
        (governance_vars 4 ▹ uint32) (λ p. All IsGovernanceVar p.0 × (p.1 < 2 ^ 32)) (λ b. refl)
        with_height
