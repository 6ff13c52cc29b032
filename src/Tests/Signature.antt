-- ===== src/Tests/Signature.antt =====
-- packages/jellyfish-transaction-signature/src: a signed transaction.
use jellyfishsdk.Prelude.{
  ℕ, zero, suc, ◌%◌, ◌≡◌, refl, arith, List, [], ◌∷◌, ◌++◌, length, false, none, some, ok, err,
  key_mismatch,
}
use jellyfishsdk.Buffer.Hex.{Text, to_hex}
use jellyfishsdk.Script.Codes.{constant}
use jellyfishsdk.Script.Codes.Constants.{op_0}
use jellyfishsdk.Script.OpCode.{static, push_data}
use jellyfishsdk.Tx.{TransactionSegWit}
use jellyfishsdk.Signature.{
  CreateHash, SignInputOption, SignOption, sighash_all, hash160, witness_of, sign, validate,
  sign_inputs, sign_input,
}
use jellyfishsdk.Signature.Signed.{IsValid, AreSigned, sign_lem}
use jellyfishsdk.Signature.Complete.{IsUsable, sign-total}
use jellyfishsdk.Tests.Node.{node_buffer, scaled}
use jellyfishsdk.Tests.Scripts.{raw_dftx, p2pkh, p2pkh_safe}
use jellyfishsdk.Tests.Transactions.{tx, tx_fits, hash_plain, input, output}
use jellyfishsdk.Signature.{
  as_witness_program, hash_prevouts, write_outpoints, hash_sequence, write_sequences,
  get_script_code, is_v0_p2wpkh, matches_key, guess_script_code, hash_outputs, c_witness_program,
}
use jellyfishsdk.Buffer.Hex.{hex_digit, from_hex}
use jellyfishsdk.Buffer.Codec.{write_each, record_of, ◌▹◌, chain}
use jellyfishsdk.Tx.{c_vout, c_vout_v4}
use jellyfishsdk.Buffer.Amounts.{write_big_number_uint64}
use jellyfishsdk.Buffer.CompactSize.{write_compact_size, write_words, write_tagged}
use jellyfishsdk.Buffer.Fields.{write_hex, write_hex_be}
use jellyfishsdk.Buffer.VarInt.{var_int_digits, write_down, write_var_int}
use jellyfishsdk.Script.Codes.{code}
use jellyfishsdk.Script.Codes.Bitwise.{bitwise_code}
use jellyfishsdk.Script.Codes.Stack.{stack_code}
use jellyfishsdk.Script.Codes.Crypto.{crypto_code}
use jellyfishsdk.Script.OpCode.{as_buffer, write_script, is_defi_script}
use jellyfishsdk.Script.PushData.{get_len_op_buffer}

abbrev sevens : ℕ → List ℕ
sevens zero = []
sevens (suc n) = 7 ∷ sevens n

-- Digests of the right length.
instance abbrev short_hash : CreateHash
short_hash = record {
  sha256 = λ bs. length bs % 256 ∷ sevens 31;
  ripemd160 = λ bs. length bs % 256 ∷ sevens 19;
  sha256_bytes = λ bs. omega arith;
  sha256_length = λ bs. refl;
}

abbrev key : List ℕ
key = 2 ∷ 9 ∷ []

-- The output that is spent pays to the key, and a hash signs itself.
abbrev option : SignInputOption ℕ Text
option = record {
  prevout = record {
    value = 200000000;
    script = static (constant op_0) ∷ push_data (to_hex (hash160 key)) ∷ [];
    token_id = some 0;
  };
  public_key = ok key;
  sign = λ h. ok h;
  witness_script = none;
}

abbrev sign_option : SignOption
sign_option = record { sig_hash_type = sighash_all; lock_time = false }

abbrev signed : TransactionSegWit ℕ Text
signed = record {
  version = 4;
  marker = 0;
  flag = 1;
  vin = input ∷ [];
  vout = output ∷ [];
  witness = witness_of (32 ∷ sevens 31 ++ sighash_all ∷ []) key ∷ [];
  lock_time = 7;
}

sign_runs : sign raw_dftx tx (option ∷ []) sign_option ≡ ok signed
unfolding sign validate sign_inputs sign_input to_hex as_witness_program hash_prevouts
    write_outpoints hash_sequence write_sequences get_script_code is_v0_p2wpkh matches_key
    guess_script_code hash_outputs c_witness_program hex_digit from_hex write_each record_of ◌▹◌
    chain c_vout c_vout_v4 write_big_number_uint64 write_compact_size write_words write_tagged
    write_hex write_hex_be var_int_digits write_down write_var_int code bitwise_code stack_code
    crypto_code as_buffer write_script is_defi_script get_len_op_buffer
sign_runs = refl

sign_lem_example :
    IsValid raw_dftx tx (option ∷ []) sign_option
    × AreSigned raw_dftx tx tx.vin (option ∷ []) signed.witness
    × (signed ≡ record {
      version = 4;
      marker = 0x00;
      flag = 0x01;
      vin = tx.vin;
      vout = tx.vout;
      witness = signed.witness;
      lock_time = 7;
    })
sign_lem_example = sign_lem raw_dftx tx (option ∷ []) sign_option signed sign_runs

-- A key that the output does not pay to is refused.
abbrev other_key : SignInputOption ℕ Text
other_key = record option {
  public_key = ok (2 ∷ []);
  prevout = record option.prevout {
    script = static (constant op_0) ∷ push_data (to_hex (sevens 20)) ∷ [];
  };
}

other_key_refused : sign raw_dftx tx (other_key ∷ []) sign_option ≡ err key_mismatch
unfolding sign validate sign_inputs sign_input to_hex as_witness_program hash_prevouts
    write_outpoints hash_sequence write_sequences get_script_code is_v0_p2wpkh matches_key
    guess_script_code hash_outputs c_witness_program hex_digit from_hex write_each record_of ◌▹◌
    chain c_vout c_vout_v4 write_big_number_uint64 write_compact_size write_words write_tagged
    write_hex write_hex_be var_int_digits write_down write_var_int code bitwise_code stack_code
    crypto_code as_buffer write_script is_defi_script get_len_op_buffer
other_key_refused = refl

-- The script is given, and fits.
abbrev given : SignInputOption ℕ Text
given = record option { witness_script = some p2pkh }

given-IsUsable : IsUsable raw_dftx given
unfolding get_script_code
given-IsUsable = (
  key,
  p2pkh,
  refl,
  refl,
  (hash_plain, p2pkh_safe),
  (200000000, refl, omega arith),
  λ h. (h, refl),
)

sign-total_example :
    (done : TransactionSegWit ℕ Text) × (sign raw_dftx tx (given ∷ []) sign_option ≡ ok done)
sign-total_example =
    sign-total raw_dftx tx (given ∷ []) sign_option tx_fits (omega arith, refl, refl)
      (given-IsUsable, tt) refl
