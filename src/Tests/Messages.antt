-- ===== src/Tests/Messages.antt =====
-- packages/jellyfish-transaction/src/script/dftx: DeFi transactions that are read back.
use jellyfishsdk.Prelude.{
  ℕ, ◌≡◌, ◌≤◌, refl, arith, List, [], ◌∷◌, length, inl, ap, sym, ◌∙◌, subst, All, ◌++◌, Result, ok,
  err,
}
use jellyfishsdk.Buffer.Codec.{Codec, ReadBack, write_each, record_of, ◌▹◌, chain}
use jellyfishsdk.Buffer.Codec.Ending.{EndBack}
use jellyfishsdk.Buffer.CompactSize.{max_safe_integer, write_compact_size}
use jellyfishsdk.Buffer.VarInt.{write_var_int, write_down, var_int_digits}
use jellyfishsdk.Buffer.Amounts.{write_big_number_uint64, write_max_price, write_price}
use jellyfishsdk.Buffer.Hex.{Text, from_hex}
use jellyfishsdk.Script.PushData.{get_len_op_buffer}
use jellyfishsdk.Script.Codes.{code, control}
use jellyfishsdk.Script.Codes.Control.{op_return}
use jellyfishsdk.Script.OpCode.{
  OpCode, static, defi_tx, as_buffer, op_code, script, write_script, is_defi_script,
}
use jellyfishsdk.Script.OpCode.RoundTrip.{IsScript, HasSafeLength, script-RoundTrip}
use jellyfishsdk.Dftx.Pool.{c_pool_swap}
use jellyfishsdk.Dftx.Message.{DfTx, pool_swap, type_of}
use jellyfishsdk.Dftx.Message.Dispatch.{dftx_signature, write_dftx, write_data, c_dftx}
use jellyfishsdk.Dftx.Message.Transaction.{IsDfTx, IsPushable, c_dftx-EndBack, defi_script-ReadBack}
use jellyfishsdk.Dftx.Governance.{GovernanceVar, lp_daily_reward, lp_splits, governance_vars}
use jellyfishsdk.Dftx.Governance.RoundTrip.{IsGovernanceVar, governance_vars_back}
use jellyfishsdk.Platform.{IsByte}
use jellyfishsdk.Tests.Node.{node_buffer, scaled}
use jellyfishsdk.Tests.Scripts.{raw_dftx, p2pkh, p2pkh_safe}

abbrev Words : Type 0
Words = List (OpCode Text)

abbrev c_script : Codec Words
c_script = script raw_dftx

abbrev IsWritten : Words → Type 0
IsWritten stack = IsScript raw_dftx stack × HasSafeLength raw_dftx stack

-- 1.5 coins of token 3 for token 4, at 2.50000001 or less.
abbrev swap : DfTx ℕ Words
swap = record {
  signature = dftx_signature;
  message = pool_swap (record {
    from_script = p2pkh;
    from_token_id = 3;
    from_amount = 150000000;
    to_script = p2pkh;
    to_token_id = 4;
    max_price = 250000001;
  });
}

p2pkh-IsWritten : IsWritten p2pkh
unfolding is_defi_script
p2pkh-IsWritten =
    (inl ((tt, (tt, ((omega arith, omega arith, omega arith), (tt, (tt, tt))))), refl), p2pkh_safe)

swap-IsDfTx : IsDfTx c_script IsWritten swap
swap-IsDfTx = (
  refl,
  (
    p2pkh-IsWritten,
    (
      omega arith,
      (
        (150000000, refl, omega arith),
        (p2pkh-IsWritten, (omega arith, (250000001, refl, omega arith))),
      ),
    ),
  ),
)

c_dftx-EndBack_example : EndBack {A = DfTx ℕ Words} (c_dftx c_script) swap
c_dftx-EndBack_example =
    c_dftx-EndBack c_script IsWritten swap (script-RoundTrip raw_dftx) swap-IsDfTx

length_or_zero : Result (List ℕ) → ℕ
length_or_zero r = elim r [ ok bs ↦ length bs | err e ↦ 0 ]

swap_length : length_or_zero (write_dftx {N = ℕ} c_script swap) ≡ 47
unfolding length_or_zero write_dftx write_data type_of c_pool_swap record_of ◌▹◌ chain write_each
    as_buffer code from_hex get_len_op_buffer write_script write_compact_size write_var_int
    write_down var_int_digits write_big_number_uint64 write_max_price write_price
swap_length = refl

swap-IsPushable : IsPushable c_script IsWritten swap
unfolding length_or_zero
swap-IsPushable bs e =
    subst (λ l. l ≤ 16777215) (sym swap_length ∙ ap length_or_zero e) (omega arith)

abbrev swap_script : List (OpCode (DfTx ℕ Words))
swap_script = static (control op_return) ∷ defi_tx swap ∷ []

swap_script_length : length_or_zero (write_each (op_code (c_dftx c_script)) swap_script) ≡ 49
unfolding length_or_zero write_dftx write_data type_of c_pool_swap record_of ◌▹◌ chain write_each
    as_buffer code from_hex get_len_op_buffer write_script write_compact_size write_var_int
    write_down var_int_digits write_big_number_uint64 write_max_price write_price
swap_script_length = refl

swap_script_safe : HasSafeLength {D = DfTx ℕ Words} (c_dftx c_script) swap_script
unfolding length_or_zero
swap_script_safe bs e =
    subst (λ l. l ≤ max_safe_integer) (sym swap_script_length ∙ ap length_or_zero e) (omega arith)

defi_script-ReadBack_example :
    ReadBack {A = List (OpCode (DfTx ℕ Words))} (script (c_dftx c_script)) swap_script (9 ∷ [])
defi_script-ReadBack_example =
    defi_script-ReadBack c_script IsWritten swap [] (9 ∷ []) (script-RoundTrip raw_dftx) swap-IsDfTx
      swap-IsPushable tt swap_script_safe

-- 2.5 coins a day, and a third of them for the pool of token 5.
abbrev rewards : List (GovernanceVar ℕ)
rewards =
    lp_daily_reward 250000000 ∷ lp_splits (record { token_id = 5; value = 33333333 } ∷ []) ∷ []

rewards_fit : All IsGovernanceVar rewards
rewards_fit = (
  (250000000, refl, omega arith),
  ((((omega arith, (33333333, refl, omega arith)), tt), omega arith), tt),
)

governance_vars_back_example :
    (bs : List ℕ) × ((governance_vars {N = ℕ} 4).to_buffer rewards ≡ ok bs)
    × All IsByte bs
    × ((rest : List ℕ)
        → length rest ≡ 4
        → (governance_vars {N = ℕ} 4).from_buffer (bs ++ rest) ≡ ok (rewards, rest))
governance_vars_back_example = governance_vars_back ℕ 4 rewards rewards_fit
