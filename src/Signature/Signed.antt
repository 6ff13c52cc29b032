-- ===== src/Signature/Signed.antt =====
-- packages/jellyfish-transaction-signature/src/tx_signature.ts: what a signed transaction is signed
-- with, and which ones are signed.
use jellyfishsdk.Prelude.{
  ℕ, ◌<◌, ◌≡◌, refl, sym, ap, subst, ◌∙◌, arith, Bool, true, false, ◌==◌, ◌&&◌, not, List, [], ◌∷◌,
  length, ok, ◌>>◌, throw_if, >>=-eq-ok, no_inputs, inputs_mismatch, lock_time_set, Error,
}
use jellyfishsdk.Platform.{SmartBuffer, BigNumber}
use jellyfishsdk.Buffer.Codec.{Codec}
use jellyfishsdk.Tx.{Vin, Transaction, TransactionSegWit, Witness}
use jellyfishsdk.Signature.{
  CreateHash, SignInputOption, SignOption, sign_input, sign_inputs, validate, sign,
}
use jellyfishsdk.Signature.Bytes.{throw_if-ok}
use jellyfishsdk.Signature.ScriptCode.{ok_inj}
use jellyfishsdk.Signature.Input.{IsSigned, sign_input-IsSigned}

throw_if-false :
    (test : Bool) (e : Error) (done : Unit {0}) → throw_if test e ≡ ok done → test ≡ false
throw_if-false true e done h = cc h
throw_if-false false e done h = refl

module _ {N D : Type 0} ⦃sb : SmartBuffer⦄ ⦃bn : BigNumber N⦄ ⦃ch : CreateHash⦄
    (dftx : Codec D) where
  -- Each input in turn, with its option and its witness.
  abbrev pub AreSigned :
      Transaction N D → List (Vin D) → List (SignInputOption N D) → List Witness → Type 0
  AreSigned tx [] [] [] = Unit
  AreSigned tx (vin ∷ vins) (option ∷ options) (witness ∷ witnesses) =
      IsSigned dftx tx vin option witness × AreSigned tx vins options witnesses
  AreSigned tx vins options witnesses = ⊥

  sign_inputs-AreSigned :
      (tx : Transaction N D) (vins : List (Vin D)) (options : List (SignInputOption N D)) (t : ℕ)
      (witnesses : List Witness)
      → length vins ≡ length options
      → sign_inputs dftx tx vins options t ≡ ok witnesses
      → AreSigned tx vins options witnesses
  unfolding sign_inputs
  sign_inputs-AreSigned tx [] [] t witnesses e h = subst (AreSigned tx [] []) (ok_inj h) tt
  sign_inputs-AreSigned tx [] (option ∷ options) t witnesses e h = absurd (omega arith)
  sign_inputs-AreSigned tx (vin ∷ vins) [] t witnesses e h = cc h
  sign_inputs-AreSigned tx (vin ∷ vins) (option ∷ options) t witnesses e h =
      let (witness, hw, h1) = >>=-eq-ok (sign_input dftx tx vin option t) _ h in
      let (rest, hr, h2) = >>=-eq-ok (sign_inputs dftx tx vins options t) _ h1 in
      subst (AreSigned tx (vin ∷ vins) (option ∷ options)) (ok_inj h2) (
        (sign_input-IsSigned dftx tx vin option t witness hw).1,
        sign_inputs-AreSigned tx vins options t rest (omega arith) hr,
      )

  -- What is validated: there are inputs, an option for each, and no lock time where it is looked at.
  abbrev pub IsValid : Transaction N D → List (SignInputOption N D) → SignOption → Type 0
  IsValid tx options option =
      (0 < length tx.vin)
      × (length tx.vin ≡ length options)
      × ((option.lock_time && not (tx.lock_time == 0)) ≡ false)

  validate-IsValid :
      (tx : Transaction N D) (options : List (SignInputOption N D)) (option : SignOption)
      (done : Unit {0})
      → validate dftx tx options option ≡ ok done
      → IsValid tx options option
  unfolding validate
  validate-IsValid tx options option done h =
      let inputs = throw_if (length tx.vin == 0) no_inputs in
      let mismatch = throw_if (not (length tx.vin == length options)) inputs_mismatch in
      let (checked, h1, h2) = >>=-eq-ok (inputs >> mismatch) _ h in
      let (some_input, h3) = throw_if-ok (length tx.vin == 0) no_inputs mismatch checked h1 in
      let one_each =
        throw_if-false (not (length tx.vin == length options)) inputs_mismatch checked h3 in
      (
        ground (arith, some_input),
        ground (arith, one_each),
        throw_if-false (option.lock_time && not (tx.lock_time == 0)) lock_time_set done h2,
      )

  -- A transaction that is signed was valid and is the transaction that was given, with the marker
  -- and the flag of witnesses, and each of its inputs has as its witness a signature of the hash of
  -- the bytes that BIP 143 lays out for it, made with the option of that input for the script that
  -- the option gives, or else for the key that the spent output pays to.
  pub sign_lem :
      (tx : Transaction N D) (options : List (SignInputOption N D)) (option : SignOption)
      (signed : TransactionSegWit N D)
      → sign dftx tx options option ≡ ok signed
      → IsValid tx options option
        × AreSigned tx tx.vin options signed.witness
        × (signed ≡ record {
          version = tx.version;
          marker = 0x00;
          flag = 0x01;
          vin = tx.vin;
          vout = tx.vout;
          witness = signed.witness;
          lock_time = tx.lock_time;
        })
  unfolding sign
  sign_lem tx options option signed h =
      let (done, hd, h1) = >>=-eq-ok (validate dftx tx options option) _ h in
      let (witnesses, hw, h2) =
        >>=-eq-ok (sign_inputs dftx tx tx.vin options option.sig_hash_type) _ h1 in
      let e = ok_inj h2 in
      let valid = validate-IsValid tx options option done hd in
      let same : witnesses ≡ signed.witness = ap (λ s. s.witness) e in
      let each =
        sign_inputs-AreSigned tx tx.vin options option.sig_hash_type witnesses valid.1 hw in
      (
        valid,
        subst (AreSigned tx tx.vin options) same each,
        sym e
            ∙ ap
                (λ ws. record {
                  version = tx.version;
                  marker = 0x00;
                  flag = 0x01;
                  vin = tx.vin;
                  vout = tx.vout;
                  witness = ws;
                  lock_time = tx.lock_time;
                })
                same,
      )
