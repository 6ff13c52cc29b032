-- ===== src/Script/OpCode/Laws.antt =====
-- A script that was written is read back word by word, and a DeFi transaction is found in it again.
use jellyfishsdk.Prelude.{ℕ, zero, suc, ◌*◌, ◌/◌, ◌<◌, ◌≤◌, ◌≡◌, refl, arith}
use jellyfishsdk.Prelude.{List, [], ◌∷◌, ◌++◌, length, All, All-append, length-append}
use jellyfishsdk.Prelude.{true, false, ltb, ◌==◌, ◌||◌}
use jellyfishsdk.Prelude.{ok, lt→ltb, le→ltb, ap, ◌∙◌}
use jellyfishsdk.Platform.{IsByte, SmartBuffer}
use jellyfishsdk.Buffer.Codec.{Codec, write_each}
use jellyfishsdk.Buffer.Hex.{
  IsHex, to_hex, from_hex, from_hex_inverse, from_hex-to_hex, to_hex-IsHex,
}
use jellyfishsdk.Buffer.Hex.{length-to_hex}
use jellyfishsdk.Script.Codes.{StaticCode, control, code, num_as_op_code}
use jellyfishsdk.Script.Codes.Control.{op_return}
use jellyfishsdk.Script.Codes.Laws.{IsWord, word-Found}
use jellyfishsdk.Script.PushData.{read_data, push_prefix}
use jellyfishsdk.Script.OpCode.{OpCode, static, push_data, defi_tx, to_op_code, read_op_codes}
use jellyfishsdk.Script.OpCode.{
  as_buffer, op_code, push_word, static_word, is_defi_hex, is_defi_script,
}
use jellyfishsdk.Script.OpCode.{remap_defi_script, to_op_codes}

-- A word that is read as it was written: a static word, or 1 to 16777215 bytes of data.
abbrev pub IsPlain : {D : Type 0} → OpCode D → Type 0
IsPlain (static c) = IsWord c
IsPlain (push_data hex) = IsHex hex × (0 < length hex) × (length hex ≤ 2 * 16777215)
IsPlain (defi_tx d) = ⊥

defi_hex-pos : (hex : List ℕ) → is_defi_hex hex ≡ true → 0 < length hex
unfolding is_defi_hex
defi_hex-pos [] e = cc
defi_hex-pos (c ∷ cs) e = omega arith

module _ {D : Type 0} ⦃sb : SmartBuffer⦄ where
  to_op_code-static :
      (c : StaticCode) (rest : List ℕ)
      → num_as_op_code (code c) ≡ ok c
      → (code c == 0) || ltb 0x4e (code c) ≡ true
      → to_op_code {D = D} (code c ∷ rest) ≡ ok (static c, rest)
  unfolding to_op_code push_word static_word
  to_op_code-static c rest found away = rw (sb.read_uint8_lem (code c) rest) (ground (arith, found))

  to_op_code-push :
      (tag : ℕ) (bs buff rest : List ℕ)
      → 0 < tag
      → tag ≤ 0x4e
      → read_data tag bs ≡ ok (buff, rest)
      → to_op_code {D = D} (tag ∷ bs) ≡ ok (push_data (to_hex buff), rest)
  unfolding to_op_code push_word static_word
  to_op_code-push tag bs buff rest pos h e = rw (sb.read_uint8_lem tag bs) (ground (arith, e))

  pub read_op_codes-nil : (fuel : ℕ) → read_op_codes {D = D} fuel [] ≡ ok []
  unfolding read_op_codes
  read_op_codes-nil zero = rw (sb.remaining_lem [])
  read_op_codes-nil (suc fuel) = rw (sb.remaining_lem [], read_op_codes)

module _ {D : Type 0} ⦃sb : SmartBuffer⦄ (dftx : Codec D) where
  -- The bytes of a word, and that they are read back.
  abbrev OpBytes : OpCode D → Type 0
  OpBytes op =
      (b : ℕ) × (more : List ℕ) × (as_buffer dftx op ≡ ok (b ∷ more))
      × All IsByte (b ∷ more)
      × ((rest : List ℕ) → to_op_code (b ∷ (more ++ rest)) ≡ ok (op, rest))

  static_bytes : (c : StaticCode) → IsWord c → OpBytes (static c)
  unfolding as_buffer
  static_bytes c h =
      let (found, away, byte) = word-Found c h in
      (
        code c,
        [],
        rw (le→ltb 0xff (code c) (omega arith)),
        (byte, tt),
        λ rest. to_op_code-static c rest found away,
      )

  push_bytes : (hex : List ℕ) → IsPlain {D = D} (push_data hex) → OpBytes (push_data hex)
  unfolding as_buffer
  push_bytes hex (h, pos, fits) =
      let (same, bytes, len) = from_hex_inverse hex h in
      let (tag, more, w, bs, lo, hi, r) =
        push_prefix (length hex / 2) (omega arith) (omega arith) in
      (
        tag,
        more ++ from_hex hex,
        rw w,
        (bs.0, All-append IsByte more (from_hex hex) bs.1 bytes),
        λ rest.
            to_op_code-push tag ((more ++ from_hex hex) ++ rest) (from_hex hex) rest lo hi
              (r (from_hex hex) rest (omega arith))
            ∙ ap (λ t. ok (push_data t, rest)) same,
      )

  op_bytes : (op : OpCode D) → IsPlain op → OpBytes op
  op_bytes (static c) h = static_bytes c h
  op_bytes (push_data hex) h = push_bytes hex h
  op_bytes (defi_tx d) h = absurd h

  -- The words of a script one after another.
  abbrev StackBytes : List (OpCode D) → Type 0
  StackBytes stack =
      (bs : List ℕ) × (write_each (op_code dftx) stack ≡ ok bs)
      × All IsByte bs
      × ((fuel : ℕ) → length bs ≤ fuel → read_op_codes fuel bs ≡ ok stack)

  read_op_codes-cons :
      (fuel b : ℕ) (more rest : List ℕ) (op : OpCode D) (ops : List (OpCode D))
      → to_op_code (b ∷ more) ≡ ok (op, rest)
      → read_op_codes fuel rest ≡ ok ops
      → read_op_codes (suc fuel) (b ∷ more) ≡ ok (op ∷ ops)
  unfolding read_op_codes
  read_op_codes-cons fuel b more rest op ops e h =
      rw (
        sb.remaining_lem (b ∷ more),
        lt→ltb 0 (suc (length more)) (omega arith),
        e,
        h,
        read_op_codes,
      )

  stack_bytes : (stack : List (OpCode D)) → All IsPlain stack → StackBytes stack
  unfolding write_each
  stack_bytes [] h = ([], refl, tt, λ fuel _. read_op_codes-nil fuel)
  stack_bytes (op ∷ ops) (h, hs) =
      let (b, more, w, byte, r) = op_bytes op h in
      let (bs, ws, bytes, rs) = stack_bytes ops hs in
      (
        b ∷ (more ++ bs),
        rw (w, ws),
        (byte.0, All-append IsByte more bs byte.1 bytes),
        fuelled b more bs (r bs) rs,
      )
    where
      fuelled :
          (b : ℕ) (more bs : List ℕ)
          → to_op_code (b ∷ (more ++ bs)) ≡ ok (op, bs)
          → ((fuel : ℕ) → length bs ≤ fuel → read_op_codes fuel bs ≡ ok ops)
          → (fuel : ℕ) → length (b ∷ (more ++ bs)) ≤ fuel
          → read_op_codes fuel (b ∷ (more ++ bs)) ≡ ok (op ∷ ops)
      fuelled b more bs r rs zero le = absurd (omega arith)
      fuelled b more bs r rs (suc fuel) le =
          read_op_codes-cons fuel b (more ++ bs) bs op ops r
            (rs fuel (omega (arith, length-append {0} more bs)))

  -- A script that is no DeFi script is not remapped.
  pub plain_back :
      (stack : List (OpCode D))
      → All IsPlain stack
      → is_defi_script stack ≡ false
      → (bs : List ℕ) × (write_each (op_code dftx) stack ≡ ok bs)
        × All IsByte bs
        × (to_op_codes dftx bs ≡ ok stack)
  unfolding to_op_codes remap_defi_script
  plain_back stack h e =
      let (bs, w, bytes, r) = stack_bytes stack h in
      (bs, w, bytes, rw (r (length bs) (omega arith), e))

  -- What `CDfTx` writes for d: bytes that it reads back and that a script may push.
  abbrev pub IsPushedDfTx : D → Type 0
  IsPushedDfTx d =
      (bs : List ℕ) × (dftx.to_buffer d ≡ ok bs)
      × All IsByte bs
      × (dftx.from_buffer bs ≡ ok (d, []))
      × (is_defi_hex (to_hex bs) ≡ true)
      × (length bs ≤ 16777215)

  abbrev pub defi_script : D → List (OpCode D) → List (OpCode D)
  defi_script d rest = static (control op_return) ∷ defi_tx d ∷ rest

  pushed_script : List ℕ → List (OpCode D) → List (OpCode D)
  pushed_script bs rest = static (control op_return) ∷ push_data (to_hex bs) ∷ rest

  pushed_IsPlain :
      (bs : List ℕ) (rest : List (OpCode D))
      → All IsByte bs
      → is_defi_hex (to_hex bs) ≡ true
      → length bs ≤ 16777215
      → All IsPlain rest
      → All IsPlain (pushed_script bs rest)
  unfolding pushed_script
  pushed_IsPlain bs rest bytes e le h = (
    tt,
    ((to_hex-IsHex bs bytes, defi_hex-pos (to_hex bs) e, omega (arith, length-to_hex bs)), h),
  )

  -- A DeFi transaction is written as the push of its bytes.
  written_as_pushed :
      (d : D) (bs : List ℕ) (rest : List (OpCode D))
      → dftx.to_buffer d ≡ ok bs
      → All IsByte bs
      → write_each (op_code dftx) (defi_script d rest)
        ≡ write_each (op_code dftx) (pushed_script bs rest)
  unfolding pushed_script write_each as_buffer
  written_as_pushed d bs rest e bytes = rw (e, from_hex-to_hex bs bytes, half) refl
    where
      half : length (to_hex bs) / 2 ≡ length bs
      half = omega (arith, length-to_hex bs)

  pub defi_back :
      (d : D) (rest : List (OpCode D))
      → IsPushedDfTx d
      → All IsPlain rest
      → (bs : List ℕ) × (write_each (op_code dftx) (defi_script d rest) ≡ ok bs)
        × All IsByte bs
        × (to_op_codes dftx bs ≡ ok (defi_script d rest))
  defi_back d rest (body, e, bytes, back, sig, le) h =
      let (bs, w, all, r) =
        stack_bytes (pushed_script body rest) (pushed_IsPlain body rest bytes sig le h) in
      (
        bs,
        written_as_pushed d body rest e bytes ∙ w,
        all,
        remapped bs (r (length bs) (omega arith)),
      )
    where
      remapped :
          (bs : List ℕ)
          → read_op_codes (length bs) bs ≡ ok (pushed_script body rest)
          → to_op_codes dftx bs ≡ ok (defi_script d rest)
      remapped bs r =
          unfold to_op_codes remap_defi_script is_defi_script pushed_script in
          rw (r, sig, from_hex-to_hex body bytes, back)
