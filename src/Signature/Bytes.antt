-- ===== src/Signature/Bytes.antt =====
-- packages/jellyfish-transaction-signature/src/tx_signature.ts: what the writes of the preimage of a
-- signature append, where they do not throw.
use jellyfishsdk.Prelude.{
  Bool, true, false, Error, ℕ, ◌^◌, ◌≡◌, refl, ◌*◌, arith, List, [], ◌∷◌, ◌++◌, length, All, not,
  ◌==◌, Result, ok, ◌>>◌, throw_if, >>=-eq-ok, invalid_length,
}
use native.Mathlib.Decide.{dec_lt}
use jellyfishsdk.Platform.{IsByte, SmartBuffer}
use jellyfishsdk.Buffer.Codec.{Codec, chain, ◌▹◌}
use jellyfishsdk.Buffer.Hex.{Text, to_hex, from_hex, from_hex-to_hex}
use jellyfishsdk.Buffer.Words.{bytes32}
use jellyfishsdk.Buffer.Fields.{write_hex, write_hex_be}
use jellyfishsdk.Tx.{Vin}
use jellyfishsdk.Signature.{write_outpoints, write_sequences}
use mathlib.Core.List.{reverse}

abbrev pub concat : List (List ℕ) → List ℕ
concat [] = []
concat (part ∷ parts) = part ++ concat parts

-- The transaction ids and indexes of the inputs, and their sequence numbers.
unfoldable pub outpoints : {D : Type 0} → List (Vin D) → List ℕ
outpoints [] = []
outpoints (vin ∷ rest) = reverse (from_hex vin.txid) ++ bytes32 vin.index ++ outpoints rest

unfoldable pub sequences : {D : Type 0} → List (Vin D) → List ℕ
sequences [] = []
sequences (vin ∷ rest) = bytes32 vin.sequence ++ sequences rest

pub throw_if-ok :
    {B : Type 0} (test : Bool) (e : Error) (next : Result B) (b : B)
    → (throw_if test e >> next) ≡ ok b
    → (test ≡ false) × (next ≡ ok b)
throw_if-ok true e next b h = cc
throw_if-ok false e next b h = (refl, h)

module _ ⦃sb : SmartBuffer⦄ where
  pub write_uint32_le-ok : (v : ℕ) (bs : List ℕ) → sb.write_uint32_le v ≡ ok bs → bs ≡ bytes32 v
  write_uint32_le-ok v bs h = elim (dec_lt v (2 ^ 32)) [
    | yes lt ↦ cc (sb.write_uint32_le_lem v lt, h)
    | no ge ↦ cc (sb.write_uint32_le_range v (omega arith), h)
  ]

  pub write_outpoints-ok :
      {D : Type 0} (vins : List (Vin D)) (bs : List ℕ)
      → write_outpoints vins ≡ ok bs
      → bs ≡ outpoints vins
  unfolding write_outpoints outpoints
  write_outpoints-ok [] bs h = cc
  write_outpoints-ok (vin ∷ rest) bs h =
      let (index, hi, h') = >>=-eq-ok (sb.write_uint32_le vin.index) _ h in
      let (more, hm, h'') = >>=-eq-ok (write_outpoints rest) _ h' in
      cc (h'', write_uint32_le-ok vin.index index hi, write_outpoints-ok rest more hm)

  pub write_sequences-ok :
      {D : Type 0} (vins : List (Vin D)) (bs : List ℕ)
      → write_sequences vins ≡ ok bs
      → bs ≡ sequences vins
  unfolding write_sequences sequences
  write_sequences-ok [] bs h = cc
  write_sequences-ok (vin ∷ rest) bs h =
      let (sequence, hi, h') = >>=-eq-ok (sb.write_uint32_le vin.sequence) _ h in
      let (more, hm, h'') = >>=-eq-ok (write_sequences rest) _ h' in
      cc (h'', write_uint32_le-ok vin.sequence sequence hi, write_sequences-ok rest more hm)

  pub write_hex-ok :
      (n : ℕ) (bytes bs : List ℕ)
      → All IsByte bytes
      → write_hex n (to_hex bytes) ≡ ok bs
      → bs ≡ bytes
  unfolding write_hex
  write_hex-ok n bytes bs h e =
      let call = ok (from_hex (to_hex bytes)) in
      let (fits, same) =
        throw_if-ok (not (length (to_hex bytes) == n * 2)) invalid_length call bs e in
      cc (same, from_hex-to_hex bytes h)

  pub write_hex_be-ok :
      (n : ℕ) (hex : Text) (bs : List ℕ) → write_hex_be n hex ≡ ok bs → bs ≡ reverse (from_hex hex)
  unfolding write_hex_be
  write_hex_be-ok n hex bs e =
      let call = ok (reverse (from_hex hex)) in
      let (fits, same) = throw_if-ok (not (length hex == n * 2)) invalid_length call bs e in cc same

pub join : {bs xs ys us vs : List ℕ} → bs ≡ xs ++ ys → xs ≡ us → ys ≡ vs → bs ≡ us ++ vs
join e p q = cc (e, p, q)

pub ▹-ok :
    {A B : Type 0} (c : Codec A) (d : Codec B) (a : A) (b : B) (bs : List ℕ)
    → (c ▹ d).to_buffer (a, b) ≡ ok bs
    → (xs : List ℕ) × (ys : List ℕ) × (c.to_buffer a ≡ ok xs)
      × (d.to_buffer b ≡ ok ys)
      × (bs ≡ xs ++ ys)
unfolding ◌▹◌ chain
▹-ok c d a b bs h =
    let (xs, hx, h') = >>=-eq-ok (c.to_buffer a) _ h in
    let (ys, hy, h'') = >>=-eq-ok (d.to_buffer b) _ h' in (xs, ys, hx, hy, cc h'')
