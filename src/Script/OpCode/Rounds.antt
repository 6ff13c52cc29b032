-- ===== src/Script/OpCode/Rounds.antt =====
-- packages/jellyfish-transaction/src/script/_buffer.ts: the loop of `toOPCodes` ends, since every
-- word takes a byte.
use jellyfishsdk.Prelude.{ℕ, zero, suc, ◌<◌, ◌≤◌, ◌≡◌, refl, arith, ◌∙◌, sym, ap}
use jellyfishsdk.Prelude.{List, [], ◌∷◌, length, drop, Result, ok, err, ◌>>=◌, >>=-eq-ok, >>=-congr}
use jellyfishsdk.Prelude.{
  lt→ltb, Error, out_of_fuel, Bool, true, false, subst, Bool-cases, inl, inr, ltb,
}
use jellyfishsdk.Platform.{SmartBuffer}
use jellyfishsdk.Script.Codes.{num_as_op_code}
use jellyfishsdk.Script.PushData.{read_data, read_counted}
use jellyfishsdk.Script.OpCode.{OpCode, to_op_code, read_op_codes, push_word, static_word}
use jellyfishsdk.Script.OpCode.Laws.{read_op_codes-nil}

length-drop_le {ℓ} : {A : Type ℓ} (n : ℕ) (xs : List A) → length (drop n xs) ≤ length xs
length-drop_le zero xs = omega arith
length-drop_le (suc n) [] = omega arith
length-drop_le (suc n) (x ∷ xs) = omega (arith, length-drop_le n xs)

abbrev is_out_of_fuel : Error → Bool
is_out_of_fuel out_of_fuel = true
is_out_of_fuel e = false

-- A result, or an error of the source.
abbrev IsEnded {ℓ} : {A : Type ℓ} → Result A → Type 0
IsEnded (ok a) = Unit
IsEnded (err e) = is_out_of_fuel e ≡ false

>>=-IsEnded {ℓ κ} :
    {A : Type ℓ} {B : Type κ} (call : Result A) (next : A → Result B)
    → IsEnded call
    → ((a : A) → call ≡ ok a → IsEnded (next a))
    → IsEnded (call >>= next)
>>=-IsEnded (err e) next h more = h
>>=-IsEnded (ok a) next h more = more a refl

module _ ⦃sb : SmartBuffer⦄ where
  read_uint16-le :
      (bs rest : List ℕ) (n : ℕ) → sb.read_uint16_le bs ≡ ok (n, rest) → length rest ≤ length bs
  read_uint16-le [] rest n e = ground (arith, sb.read_uint16_le_end [])
  read_uint16-le (a ∷ []) rest n e = ground (arith, sb.read_uint16_le_end (a ∷ []))
  read_uint16-le (a ∷ b ∷ bs) rest n e = ground (arith, sb.read_uint16_le_lem a b bs)

  read_uint32-le :
      (bs rest : List ℕ) (n : ℕ) → sb.read_uint32_le bs ≡ ok (n, rest) → length rest ≤ length bs
  read_uint32-le [] rest n e = ground (arith, sb.read_uint32_le_end [])
  read_uint32-le (a ∷ []) rest n e = ground (arith, sb.read_uint32_le_end (a ∷ []))
  read_uint32-le (a ∷ b ∷ []) rest n e = ground (arith, sb.read_uint32_le_end (a ∷ b ∷ []))
  read_uint32-le (a ∷ b ∷ c ∷ []) rest n e = ground (arith, sb.read_uint32_le_end (a ∷ b ∷ c ∷ []))
  read_uint32-le (a ∷ b ∷ c ∷ d ∷ bs) rest n e = ground (arith, sb.read_uint32_le_lem a b c d bs)

  read_uint8-le :
      (bs rest : List ℕ) (n : ℕ) → sb.read_uint8 bs ≡ ok (n, rest) → length rest < length bs
  read_uint8-le [] rest n e = cc (sb.read_uint8_end)
  read_uint8-le (a ∷ bs) rest n e = ground (arith, sb.read_uint8_lem a bs)

  read_counted-le :
      (r : Result (ℕ × List ℕ)) (bs buff rest : List ℕ)
      → ((n : ℕ) (left : List ℕ) → r ≡ ok (n, left) → length left ≤ length bs)
      → read_counted r ≡ ok (buff, rest)
      → length rest ≤ length bs
  unfolding read_counted
  read_counted-le (ok (n, left)) bs buff rest h e =
      ground (arith, h n left refl, sb.read_buffer_lem n left, length-drop_le n left)
  read_counted-le (err x) bs buff rest h e = cc

  read_data-le :
      (tag : ℕ) (bs buff rest : List ℕ)
      → read_data tag bs ≡ ok (buff, rest)
      → length rest ≤ length bs
  unfolding read_data
  read_data-le tag bs buff rest e = ground (
    arith,
    sb.read_buffer_lem tag bs,
    length-drop_le tag bs,
    read_counted-le (sb.read_uint8 bs) bs buff rest
        (λ n left h. omega (arith, read_uint8-le bs left n h)),
    read_counted-le (sb.read_uint16_le bs) bs buff rest (λ n left h. read_uint16-le bs left n h),
    read_counted-le (sb.read_uint32_le bs) bs buff rest (λ n left h. read_uint32-le bs left n h),
  )

num_as_op_code-IsEnded : (num : ℕ) → IsEnded (num_as_op_code num)
unfolding num_as_op_code
num_as_op_code-IsEnded num = elim (Bool-cases (ltb 0xff num)) [
  | inl large ↦ rw large refl
  | inr byte ↦ rw byte tt
]

module _ ⦃sb : SmartBuffer⦄ where
  read_uint8-IsEnded : (bs : List ℕ) → IsEnded (sb.read_uint8 bs)
  read_uint8-IsEnded [] = rw sb.read_uint8_end refl
  read_uint8-IsEnded (a ∷ bs) = rw (sb.read_uint8_lem a bs) tt

  read_uint16_le-IsEnded : (bs : List ℕ) → IsEnded (sb.read_uint16_le bs)
  read_uint16_le-IsEnded [] = rw (sb.read_uint16_le_end [] (omega arith)) refl
  read_uint16_le-IsEnded (a ∷ []) = rw (sb.read_uint16_le_end (a ∷ []) (omega arith)) refl
  read_uint16_le-IsEnded (a ∷ b ∷ bs) = rw (sb.read_uint16_le_lem a b bs) tt

  read_uint32_le-IsEnded : (bs : List ℕ) → IsEnded (sb.read_uint32_le bs)
  read_uint32_le-IsEnded [] = rw (sb.read_uint32_le_end [] (omega arith)) refl
  read_uint32_le-IsEnded (a ∷ []) = rw (sb.read_uint32_le_end (a ∷ []) (omega arith)) refl
  read_uint32_le-IsEnded (a ∷ b ∷ []) = rw (sb.read_uint32_le_end (a ∷ b ∷ []) (omega arith)) refl
  read_uint32_le-IsEnded (a ∷ b ∷ c ∷ []) =
      rw (sb.read_uint32_le_end (a ∷ b ∷ c ∷ []) (omega arith)) refl
  read_uint32_le-IsEnded (a ∷ b ∷ c ∷ d ∷ bs) = rw (sb.read_uint32_le_lem a b c d bs) tt

  read_counted-IsEnded : (r : Result (ℕ × List ℕ)) → IsEnded r → IsEnded (read_counted r)
  unfolding read_counted
  read_counted-IsEnded r h = >>=-IsEnded r _ h (λ (n, rest) e. tt)

  read_data-IsEnded : (tag : ℕ) (bs : List ℕ) → IsEnded (read_data tag bs)
  unfolding read_data
  read_data-IsEnded tag bs = ground (
    arith,
    read_counted-IsEnded (sb.read_uint8 bs) (read_uint8-IsEnded bs),
    read_counted-IsEnded (sb.read_uint16_le bs) (read_uint16_le-IsEnded bs),
    read_counted-IsEnded (sb.read_uint32_le bs) (read_uint32_le-IsEnded bs),
  )

module _ {D : Type 0} ⦃sb : SmartBuffer⦄ where
  push_word-le :
      (num : ℕ) (bs rest : List ℕ) (op : OpCode D)
      → push_word num bs ≡ ok (op, rest)
      → length rest ≤ length bs
  unfolding push_word
  push_word-le num bs rest op e =
      let ((buff, left), d, k) = >>=-eq-ok (read_data num bs) _ e in
      ground (arith, read_data-le num bs buff left d)

  static_word-le :
      (num : ℕ) (bs rest : List ℕ) (op : OpCode D)
      → static_word num bs ≡ ok (op, rest)
      → length rest ≤ length bs
  unfolding static_word
  static_word-le num bs rest op e =
      let (c, d, k) = >>=-eq-ok (num_as_op_code num) _ e in ground arith

  to_op_code-lt :
      (bs rest : List ℕ) (op : OpCode D) → to_op_code bs ≡ ok (op, rest) → length rest < length bs
  unfolding to_op_code
  to_op_code-lt bs rest op e =
      let ((num, left), d, k) = >>=-eq-ok (sb.read_uint8 bs) _ e in
      ground (
        arith,
        read_uint8-le bs left num d,
        push_word-le num left rest op,
        static_word-le num left rest op,
      )

  -- What a round does after its word.
  read_then : ℕ → OpCode D × List ℕ → Result (List (OpCode D))
  read_then fuel (op, rest) = do ops ← read_op_codes fuel rest; ok (op ∷ ops)

  read_op_codes-step :
      (fuel b : ℕ) (bs : List ℕ)
      → read_op_codes {D = D} (suc fuel) (b ∷ bs) ≡ (to_op_code (b ∷ bs) >>= read_then fuel)
  unfolding read_op_codes read_then
  read_op_codes-step fuel b bs =
      rw (sb.remaining_lem (b ∷ bs), lt→ltb 0 (suc (length bs)) (omega arith), read_op_codes)

  -- Two runs with rounds enough agree.
  rounds_agree :
      (f g : ℕ) (bs : List ℕ)
      → length bs ≤ f
      → length bs ≤ g
      → read_op_codes {D = D} f bs ≡ read_op_codes g bs
  unfolding read_then
  rounds_agree f g [] h k = read_op_codes-nil f ∙ sym (read_op_codes-nil g)
  rounds_agree zero g (b ∷ bs) h k = absurd (omega arith)
  rounds_agree (suc f) zero (b ∷ bs) h k = absurd (omega arith)
  rounds_agree (suc f) (suc g) (b ∷ bs) h k =
      read_op_codes-step f b bs
      ∙ >>=-congr (to_op_code (b ∷ bs)) (read_then f) (read_then g) (λ (op, rest) e.
        let fewer = to_op_code-lt (b ∷ bs) rest op e in
        ap (λ r. r >>= λ ops. ok (op ∷ ops)) (rounds_agree f g rest (omega arith) (omega arith)))
      ∙ sym (read_op_codes-step g b bs)

module _ (D : Type 0) ⦃sb : SmartBuffer⦄ where
  push_word-IsEnded : (num : ℕ) (bs : List ℕ) → IsEnded (push_word {D = D} num bs)
  unfolding push_word
  push_word-IsEnded num bs =
      >>=-IsEnded (read_data num bs) _ (read_data-IsEnded num bs) (λ (buff, rest) e. tt)

  static_word-IsEnded : (num : ℕ) (bs : List ℕ) → IsEnded (static_word {D = D} num bs)
  unfolding static_word
  static_word-IsEnded num bs =
      >>=-IsEnded (num_as_op_code num) _ (num_as_op_code-IsEnded num) (λ c e. tt)

  to_op_code-IsEnded : (bs : List ℕ) → IsEnded (to_op_code {D = D} bs)
  unfolding to_op_code
  to_op_code-IsEnded bs =
      >>=-IsEnded (sb.read_uint8 bs) _ (read_uint8-IsEnded bs)
        (λ (num, rest) e. ground (arith, push_word-IsEnded num rest, static_word-IsEnded num rest))

  -- With a round for each byte the loop does not run out of rounds.
  rounds_enough :
      (fuel : ℕ) (bs : List ℕ) → length bs ≤ fuel → IsEnded (read_op_codes {D = D} fuel bs)
  unfolding read_then
  rounds_enough fuel [] h = rw (read_op_codes-nil {D = D} fuel) tt
  rounds_enough zero (b ∷ bs) h = absurd (omega arith)
  rounds_enough (suc fuel) (b ∷ bs) h = rw (read_op_codes-step fuel b bs) (
      >>=-IsEnded (to_op_code (b ∷ bs)) (read_then fuel) (to_op_code-IsEnded (b ∷ bs))
        (λ (op, rest) e.
          let fewer = to_op_code-lt (b ∷ bs) rest op e in
          >>=-IsEnded (read_op_codes fuel rest) (λ ops. ok (op ∷ ops))
            (rounds_enough fuel rest (omega arith)) (λ ops _. tt)))

  -- The loop over the words of a script ends, in a result or in an error of the source, within as
  -- many rounds as there are bytes: it does not run out of them, and more rounds change nothing.
  pub read_op_codes-rounds :
      (fuel : ℕ) (bs : List ℕ)
      → length bs ≤ fuel
      → ¬ (read_op_codes {D = D} fuel bs ≡ err out_of_fuel)
        × (read_op_codes {D = D} fuel bs ≡ read_op_codes (length bs) bs)
  read_op_codes-rounds fuel bs h = (
    λ e. absurd (cc (subst (IsEnded {A = List (OpCode D)}) e (rounds_enough fuel bs h))),
    rounds_agree fuel (length bs) bs h (omega arith),
  )
