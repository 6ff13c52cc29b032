-- ===== src/Dftx/Governance.antt =====
-- packages/jellyfish-transaction/src/script/dftx/dftx_governance.ts: governance variables and the
-- two messages that set them.
pub mod RoundTrip
use jellyfishsdk.Prelude.{
  ℕ, zero, suc, ◌-◌, List, [], ◌∷◌, ◌++◌, length, true, false, ltb, if◌then◌else◌,
}
use jellyfishsdk.Prelude.{Result, ok, err, ◌>>=◌, out_of_fuel, invalid_length}
use jellyfishsdk.Prelude.{same_text}
use jellyfishsdk.Platform.{SmartBuffer, BigNumber}
use jellyfishsdk.Buffer.Codec.{Codec, read_times, write_each, record_of, ◌▹◌}
use jellyfishsdk.Buffer.Hex.{Text, to_hex, from_hex}
use jellyfishsdk.Buffer.Words.{uint32}
use jellyfishsdk.Buffer.Amounts.{satoshi_as_big_number}
use jellyfishsdk.Buffer.Texts.{compact_size_utf8_be}
use jellyfishsdk.Dftx.Proposals.{LiqPoolSplit, c_liq_pool_split}

-- `GovernanceLpDailyReward`, `GovernanceLpSplits` and `GovernanceUnmapped`, which has its key.
pub data GovernanceVar (N : Type 0) : Type 0 where
  lp_daily_reward : N → GovernanceVar N
  lp_splits : List (LiqPoolSplit N) → GovernanceVar N
  unmapped_var : Text → Text → GovernanceVar N

-- 'LP_DAILY_DFI_REWARD'
abbrev pub lp_daily_reward_key : Text
lp_daily_reward_key =
    b'L' ∷ b'P' ∷ b'_' ∷ b'D' ∷ b'A' ∷ b'I' ∷ b'L' ∷ b'Y' ∷ b'_' ∷ b'D' ∷ b'F' ∷ b'I' ∷ b'_' ∷ b'R'
    ∷ b'E' ∷ b'W' ∷ b'A' ∷ b'R' ∷ b'D' ∷ []

-- 'LP_SPLITS'
abbrev pub lp_splits_key : Text
lp_splits_key = b'L' ∷ b'P' ∷ b'_' ∷ b'S' ∷ b'P' ∷ b'L' ∷ b'I' ∷ b'T' ∷ b'S' ∷ []

unfoldable pub key_of : {N : Type 0} → GovernanceVar N → Text
key_of (lp_daily_reward value) = lp_daily_reward_key
key_of (lp_splits value) = lp_splits_key
key_of (unmapped_var key value) = key

module _ {N : Type 0} ⦃sb : SmartBuffer⦄ ⦃bn : BigNumber N⦄ where
  unfoldable pub read_reward : List ℕ → Result (GovernanceVar N × List ℕ)
  read_reward bs = do
    (value, rest) ← satoshi_as_big_number.from_buffer bs
    ok (lp_daily_reward value, rest)

  unfoldable pub read_splits : List ℕ → Result (GovernanceVar N × List ℕ)
  read_splits bs = do
    (n, rest) ← sb.read_uint8 bs
    (splits, rest') ← read_times c_liq_pool_split n rest
    ok (lp_splits splits, rest')

  -- `remainingLength`: all but the reserved bytes. `readBuffer` refuses a negative length.
  unfoldable pub read_unmapped : ℕ → Text → List ℕ → Result (GovernanceVar N × List ℕ)
  read_unmapped reserved key bs =
      let (value, rest) = sb.read_buffer (sb.remaining bs - reserved) bs in
      if ltb (sb.remaining bs) reserved
      then err invalid_length
      else ok (unmapped_var key (to_hex value), rest)

  -- `CGovernanceVar`: 4 bytes are reserved with a height, none without.
  unfoldable pub read_governance_var : ℕ → List ℕ → Result (GovernanceVar N × List ℕ)
  read_governance_var reserved bs = do
    (key, rest) ← compact_size_utf8_be.from_buffer bs
    if same_text key lp_daily_reward_key
        then read_reward rest
        else if same_text key lp_splits_key
        then read_splits rest
        else read_unmapped reserved key rest

  unfoldable pub write_value : GovernanceVar N → Result (List ℕ)
  write_value (lp_daily_reward value) = satoshi_as_big_number.to_buffer value
  write_value (lp_splits value) = do
    size ← sb.write_uint8 (length value)
    body ← write_each c_liq_pool_split value
    ok (size ++ body)
  write_value (unmapped_var key value) = ok (from_hex value)

  unfoldable pub write_governance_var : GovernanceVar N → Result (List ℕ)
  write_governance_var gv = do
    key ← compact_size_utf8_be.to_buffer (key_of gv)
    value ← write_value gv
    ok (key ++ value)

  -- `while (buffer.remaining() > reserved)`. A variable takes bytes: as many rounds as bytes are
  -- enough.
  unfoldable pub read_governance_vars : ℕ → ℕ → List ℕ → Result (List (GovernanceVar N) × List ℕ)
  read_governance_vars zero reserved bs =
      if ltb reserved (sb.remaining bs) then err out_of_fuel else ok ([], bs)
  read_governance_vars (suc fuel) reserved bs = elim (ltb reserved (sb.remaining bs)) [
    | true ↦ do
      (gv, rest) ← read_governance_var reserved bs
      (gvs, rest') ← read_governance_vars fuel reserved rest
      ok (gv ∷ gvs, rest')
    | false ↦ ok ([], bs)
  ]

  abbrev pub c_governance_var : ℕ → Codec (GovernanceVar N)
  c_governance_var reserved = record {
    from_buffer = read_governance_var reserved;
    to_buffer = write_governance_var;
  }

  abbrev pub governance_vars : ℕ → Codec (List (GovernanceVar N))
  governance_vars reserved = record {
    from_buffer = λ bs. read_governance_vars (length bs) reserved bs;
    to_buffer = write_each (c_governance_var reserved);
  }

pub record SetGovernance (N : Type 0) : Type 0 where
  pub governance_vars : List (GovernanceVar N)

pub record SetGovernanceHeight (N : Type 0) : Type 0 where
  pub governance_vars : List (GovernanceVar N)
  pub activation_height : ℕ

module _ {N : Type 0} ⦃sb : SmartBuffer⦄ ⦃bn : BigNumber N⦄ where
  -- `CSetGovernance`
  unfoldable pub c_set_governance : Codec (SetGovernance N)
  c_set_governance =
      record_of (λ m. m.governance_vars) (λ vars. record { governance_vars = vars })
        (governance_vars 0)

  -- `CSetGovernanceHeight`
  unfoldable pub c_set_governance_height : Codec (SetGovernanceHeight N)
  c_set_governance_height =
      record_of (λ m. (m.governance_vars, m.activation_height))
        (λ (vars, height). record { governance_vars = vars; activation_height = height })
        (governance_vars 4 ▹ uint32)
