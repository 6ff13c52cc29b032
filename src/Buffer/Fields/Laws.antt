-- ===== src/Buffer/Fields/Laws.antt =====
-- Each field composer reads back what it has written.
use jellyfishsdk.Prelude.{ℕ, ◌*◌, ◌<◌, ◌≤◌, ◌≡◌, refl, ◌∙◌, arith}
use jellyfishsdk.Prelude.{List, [], ◌∷◌, ◌++◌, length, true, false}
use jellyfishsdk.Prelude.{
  Option, none, some, append_assoc, length-reverse, All, All-append, All-reverse,
}
use jellyfishsdk.Prelude.{take-append_exact, drop-append_exact, eq→==, lt→ltb}
use jellyfishsdk.Platform.{IsByte, SmartBuffer}
use jellyfishsdk.Buffer.Codec.{Codec, RoundTrip, array-RoundTrip, ReadBack, RoundTrip-ReadBack}
use jellyfishsdk.Buffer.CompactSize.{max_safe_integer, compact_size-RoundTrip}
use jellyfishsdk.Buffer.Hex.{Text, IsHex, from_hex, from_hex_inverse}
use jellyfishsdk.Buffer.Fields.{hex, write_hex, hex_be_buffer_le, write_hex_be, compact_size_hex}
use jellyfishsdk.Buffer.Fields.{read_sized, write_sized, compact_size_optional_hex}
use jellyfishsdk.Buffer.Fields.{read_optional_sized, write_optional_sized, ubool8, ubool32}
use jellyfishsdk.Buffer.Fields.{compact_size_array, read_array, write_array}
use jellyfishsdk.Prelude.{err, end_of_buffer}
use jellyfishsdk.Buffer.CompactSize.{read_compact_size-empty}
use mathlib.Core.List.{reverse, reverse-reverse}

-- A hex text of n bytes.
abbrev pub IsHexOf : ℕ → Text → Type 0
IsHexOf n hex = IsHex hex × (length hex ≡ n * 2)

-- A hex text that a sized field can hold.
abbrev pub IsSized : Text → Type 0
IsSized hex = IsHex hex × (length hex ≤ 2 * max_safe_integer)

abbrev pub IsOptionalSized : Option Text → Type 0
IsOptionalSized none = Unit
IsOptionalSized (some hex) = IsSized hex × (0 < length hex)

module _ ⦃sb : SmartBuffer⦄ where
  read-front :
      (n : ℕ) (bs rest : List ℕ) → length bs ≡ n → sb.read_buffer n (bs ++ rest) ≡ (bs, rest)
  read-front n bs rest e = rw (
    ← e,
    sb.read_buffer_lem (length bs) (bs ++ rest),
    take-append_exact bs rest,
    drop-append_exact bs rest,
  )

  pub hex-RoundTrip : (n : ℕ) → RoundTrip (hex n) (IsHexOf n)
  unfolding write_hex
  hex-RoundTrip n t (h, e) =
      let (same, bytes, len) = from_hex_inverse t h in
      (
        from_hex t,
        rw (eq→== (length t) (n * 2) e),
        bytes,
        λ rest. rw (read-front n (from_hex t) rest (omega arith), same),
      )

  pub hex_be_buffer_le-RoundTrip : (n : ℕ) → RoundTrip (hex_be_buffer_le n) (IsHexOf n)
  unfolding write_hex_be
  hex_be_buffer_le-RoundTrip n t (h, e) =
      let (same, bytes, len) = from_hex_inverse t h in
      (
        reverse (from_hex t),
        rw (eq→== (length t) (n * 2) e),
        All-reverse IsByte (from_hex t) bytes,
        λ rest. rw (
          read-front n (reverse (from_hex t)) rest (length-reverse (from_hex t) ∙ omega arith),
          reverse-reverse,
          same,
        ),
      )

  pub compact_size_hex-RoundTrip : RoundTrip compact_size_hex IsSized
  unfolding read_sized write_sized
  compact_size_hex-RoundTrip t (h, fits) =
      let (same, bytes, len) = from_hex_inverse t h in
      let (size, w, sized, r) = compact_size-RoundTrip (length (from_hex t)) (omega arith) in
      (
        size ++ from_hex t,
        rw w,
        All-append IsByte size (from_hex t) sized bytes,
        λ rest. rw (
          append_assoc size (from_hex t) rest,
          r (from_hex t ++ rest),
          read-front _ (from_hex t) rest refl,
          same,
        ),
      )

  pub compact_size_optional_hex-RoundTrip : RoundTrip compact_size_optional_hex IsOptionalSized
  unfolding read_optional_sized write_optional_sized
  compact_size_optional_hex-RoundTrip none h =
      let (size, w, sized, r) = compact_size-RoundTrip 0 (omega arith) in
      (size, w, sized, λ rest. rw (r rest))
  compact_size_optional_hex-RoundTrip (some []) h = absurd (omega arith)
  compact_size_optional_hex-RoundTrip (some (x ∷ xs)) ((h, fits), _) =
      let t = x ∷ xs in
      let (same, bytes, len) = from_hex_inverse t h in
      let (size, w, sized, r) = compact_size-RoundTrip (length (from_hex t)) (omega arith) in
      (
        size ++ from_hex t,
        rw w,
        All-append IsByte size (from_hex t) sized bytes,
        λ rest. rw (
          append_assoc size (from_hex t) rest,
          r (from_hex t ++ rest),
          read-front _ (from_hex t) rest refl,
          lt→ltb 0 (length (from_hex t)) (omega arith),
          same,
        ),
      )

  pub ubool8-RoundTrip : RoundTrip ubool8 (λ _. Unit {0})
  ubool8-RoundTrip true h = (1 ∷ [], refl, omega arith, λ rest. rw (sb.read_uint8_lem 1 rest))
  ubool8-RoundTrip false h = (0 ∷ [], refl, omega arith, λ rest. rw (sb.read_uint8_lem 0 rest))

  pub ubool32-RoundTrip : RoundTrip ubool32 (λ _. Unit {0})
  ubool32-RoundTrip true h =
      (0 ∷ 0 ∷ 0 ∷ 1 ∷ [], refl, omega arith, λ rest. rw (sb.read_uint32_be_lem 0 0 0 1 rest))
  ubool32-RoundTrip false h =
      (0 ∷ 0 ∷ 0 ∷ 0 ∷ [], refl, omega arith, λ rest. rw (sb.read_uint32_be_lem 0 0 0 0 rest))

-- A list of items that fit, whose number is a safe integer.
abbrev pub IsArray : {A : Type 0} → (A → Type 0) → List A → Type 0
IsArray P xs = All P xs × (length xs ≤ max_safe_integer)

module _ {A : Type 0} ⦃sb : SmartBuffer⦄ where
  pub read_array-empty : (c : Codec A) → (compact_size_array c).from_buffer [] ≡ err end_of_buffer
  unfolding read_array
  read_array-empty c = rw read_compact_size-empty

  pub compact_size_array-RoundTrip :
      (c : Codec A) (P : A → Type 0) → RoundTrip c P → RoundTrip (compact_size_array c) (IsArray P)
  unfolding read_array write_array
  compact_size_array-RoundTrip c P hc xs (h, fits) =
      let (size, w, sized, r) = compact_size-RoundTrip (length xs) fits in
      let (body, w', bytes, r') = array-RoundTrip c P hc (length xs) xs (h, refl) in
      (
        size ++ body,
        rw (w, w'),
        All-append IsByte size body sized bytes,
        λ rest. rw (append_assoc size body rest, r (body ++ rest), r' rest),
      )

  -- A list of items, each of which is read back, is written behind its length and read back.
  pub compact_size_array-ReadBack :
      (c : Codec A) (P : A → Type 0) (xs : List A) (rest : List ℕ)
      → RoundTrip c P
      → IsArray P xs
      → ReadBack (compact_size_array c) xs rest
  compact_size_array-ReadBack c P xs rest hc h =
      RoundTrip-ReadBack (compact_size_array c) (compact_size_array-RoundTrip c P hc) xs rest h

module _ ⦃sb : SmartBuffer⦄ where
  -- An optional hex text is read back with whatever follows it, the undefined one as undefined. A
  -- defined one has at least a byte.
  pub compact_size_optional_hex-ReadBack :
      (hex : Option Text) (rest : List ℕ)
      → IsOptionalSized hex
      → ReadBack compact_size_optional_hex hex rest
  compact_size_optional_hex-ReadBack =
      RoundTrip-ReadBack compact_size_optional_hex compact_size_optional_hex-RoundTrip
