-- ===== src/Signature/ScriptCode.antt =====
-- packages/jellyfish-transaction-signature/src/tx_signature.ts: the script that a signature of an input is
-- for, and the key of the output that it spends.
use jellyfishsdk.Prelude.{
  ℕ, ◌≡◌, refl, ap, subst, ◌∙◌, Bool, true, false, Bool-cases, inl, inr, ◌==◌, List, [], ◌∷◌,
  length, same_text, same_text→eq, Option, none, some, Result, ok, >>=-eq-ok,
}
use jellyfishsdk.Buffer.Hex.{Text, to_hex}
use jellyfishsdk.Script.Codes.{constant}
use jellyfishsdk.Script.Codes.Constants.{op_0}
use jellyfishsdk.Script.OpCode.{static, push_data}
use jellyfishsdk.Tx.{Script}
use jellyfishsdk.Signature.{
  CreateHash, hash160, matches_key, is_v0_p2wpkh, p2pkh_code, guess_script_code, get_script_code,
}

pub ok_inj : {A : Type 0} {x y : A} → ok x ≡ ok y → x ≡ y
ok_inj e = cc e

module _ ⦃ch : CreateHash⦄ where
  matches_key-hash160 :
      (pushed : Text) (key : List ℕ)
      → matches_key pushed (ok key) ≡ ok true
      → to_hex (hash160 key) ≡ pushed
  unfolding matches_key
  matches_key-hash160 pushed key h = elim (Bool-cases (length pushed == 40)) [
    | inr odd ↦ cc (let later = rw odd at h in later)
    | inl even ↦ elim (Bool-cases (same_text (to_hex (hash160 key)) pushed)) [
      | inl same ↦ same_text→eq (to_hex (hash160 key)) pushed same
      | inr other ↦ cc (let later = rw (even, other) at h in later)
    ]
  ]

module _ {D : Type 0} ⦃ch : CreateHash⦄ where
  -- The output pays to the hash of a key.
  abbrev pub PaysTo : Script D → List ℕ → Type 0
  PaysTo script key = script ≡ static (constant op_0) ∷ push_data (to_hex (hash160 key)) ∷ []

  -- The script that is signed: the one that is given, or that of the key which the output pays to.
  abbrev pub IsScriptCode : Option (Script D) → Script D → List ℕ → Script D → Type 0
  IsScriptCode (some given) prevout key code = code ≡ given
  IsScriptCode none prevout key code = PaysTo prevout key × (code ≡ p2pkh_code (hash160 key))

  is_v0_p2wpkh-PaysTo :
      (prevout : Script D) (call : Result (List ℕ)) (key : List ℕ)
      → call ≡ ok key
      → is_v0_p2wpkh prevout call ≡ ok true
      → PaysTo prevout key
  unfolding is_v0_p2wpkh
  is_v0_p2wpkh-PaysTo (static (constant op_0) ∷ push_data pushed ∷ []) call key e h =
      cc (matches_key-hash160 pushed key (subst (λ c. matches_key pushed c ≡ ok true) e h))
  is_v0_p2wpkh-PaysTo other call key e h = cc h

  guess_script_code-ok :
      (guessed : Bool) (call : Result (List ℕ)) (key : List ℕ) (code : Script D)
      → call ≡ ok key
      → guess_script_code guessed call ≡ ok code
      → (guessed ≡ true) × (code ≡ p2pkh_code (hash160 key))
  unfolding guess_script_code
  guess_script_code-ok true call key code e h =
      let (pubkey, hk, h') = >>=-eq-ok call _ h in (refl, cc (e, hk, h'))
  guess_script_code-ok false call key code e h = cc h

  pub get_script_code-IsScriptCode :
      (given : Option (Script D)) (prevout : Script D) (call : Result (List ℕ)) (key : List ℕ)
      (code : Script D)
      → call ≡ ok key
      → get_script_code given prevout call ≡ ok code
      → IsScriptCode given prevout key code
  unfolding get_script_code
  get_script_code-IsScriptCode (some given) prevout call key code e h = cc h
  get_script_code-IsScriptCode none prevout call key code e h =
      let (guessed, hg, h') = >>=-eq-ok (is_v0_p2wpkh prevout call) _ h in
      let (is_key, same) = guess_script_code-ok guessed call key code e h' in
      (is_v0_p2wpkh-PaysTo prevout call key e (hg ∙ ap ok is_key), same)
