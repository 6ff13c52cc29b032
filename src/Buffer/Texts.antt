-- ===== src/Buffer/Texts.antt =====
-- packages/jellyfish-buffer/src/Composer.ts: the composers of text, `utf8LE`, `utf8BE`,
-- `compactSizeUtf8LE` and `compactSizeUtf8BE`.
use jellyfishsdk.Prelude.{
  ℕ, ◌≤◌, ◌≡◌, refl, arith, List, ◌++◌, length, All, All-append, append_assoc,
}
use jellyfishsdk.Prelude.{◌==◌, not, Result, ok, ◌>>=◌, ◌>>◌, throw_if, invalid_length}
use jellyfishsdk.Prelude.{take-append_exact, drop-append_exact}
use jellyfishsdk.Platform.{IsByte, SmartBuffer}
use jellyfishsdk.Buffer.Codec.{Codec, RoundTrip, ReadBack, RoundTrip-ReadBack}
use jellyfishsdk.Buffer.Hex.{Text}
use jellyfishsdk.Buffer.Utf8.{encode, decode, between, IsScalar, encode-IsByte, decode-encode}
use jellyfishsdk.Buffer.CompactSize.{
  max_safe_integer, read_compact_size, write_compact_size, compact_size-RoundTrip,
}
use mathlib.Core.List.{reverse}

-- `buff.toString('utf-8')`
abbrev pub to_text : List ℕ → Text
to_text buff = decode between buff

module _ ⦃sb : SmartBuffer⦄ where
  -- The text of the next n bytes, in an order.
  abbrev pub text_of : (List ℕ → List ℕ) → ℕ → Codec Text
  text_of order n = record {
    from_buffer = λ bs. let (buff, rest) = sb.read_buffer n bs in ok (to_text (order buff), rest);
    to_buffer = λ text.
        let buff = order (encode text) in
        throw_if (not (length buff == n)) invalid_length >> ok buff;
  }

  abbrev pub utf8_be : ℕ → Codec Text
  utf8_be = text_of (λ buff. buff)

  abbrev pub utf8_le : ℕ → Codec Text
  utf8_le = text_of reverse

  unfoldable pub read_text : (List ℕ → List ℕ) → List ℕ → Result (Text × List ℕ)
  read_text order bs = do
    (n, rest) ← read_compact_size bs
    let (buff, rest') = sb.read_buffer n rest
    ok (to_text (order buff), rest')

  unfoldable pub write_text : (List ℕ → List ℕ) → Text → Result (List ℕ)
  write_text order text = do
    let buff = order (encode text)
    size ← write_compact_size (length buff)
    ok (size ++ buff)

  abbrev pub compact_size_utf8_be : Codec Text
  compact_size_utf8_be = record {
    from_buffer = read_text (λ buff. buff);
    to_buffer = write_text (λ buff. buff);
  }

  abbrev pub compact_size_utf8_le : Codec Text
  compact_size_utf8_le = record { from_buffer = read_text reverse; to_buffer = write_text reverse }

-- A text without halves of surrogate pairs, whose bytes JavaScript can count.
abbrev pub IsString : Text → Type 0
IsString t = All IsScalar t × (length (encode t) ≤ max_safe_integer)

module _ ⦃sb : SmartBuffer⦄ where
  read_text-back :
      (order : List ℕ → List ℕ) (buff rest size : List ℕ)
      → ((r : List ℕ) → read_compact_size (size ++ r) ≡ ok (length buff, r))
      → read_text order ((size ++ buff) ++ rest) ≡ ok (to_text (order buff), rest)
  unfolding read_text
  read_text-back order buff rest size r = rw (
    append_assoc size buff rest,
    r (buff ++ rest),
    sb.read_buffer_lem (length buff) (buff ++ rest),
    take-append_exact buff rest,
    drop-append_exact buff rest,
  )

  -- An order that undoes itself, keeps the length and keeps bytes.
  text-back :
      (order : List ℕ → List ℕ) (t : Text)
      → order (order (encode t)) ≡ encode t
      → length (order (encode t)) ≡ length (encode t)
      → All IsByte (order (encode t))
      → IsString t
      → (bs : List ℕ) × (write_text order t ≡ ok bs)
        × All IsByte bs
        × ((rest : List ℕ) → read_text order (bs ++ rest) ≡ ok (t, rest))
  unfolding write_text
  text-back order t same len bytes (h, fits) =
      let (size, w, sized, r) = compact_size-RoundTrip (length (order (encode t))) (omega arith) in
      (
        size ++ order (encode t),
        rw w,
        All-append IsByte size (order (encode t)) sized bytes,
        λ rest. rw (read_text-back order (order (encode t)) rest size r, same, decode-encode t h),
      )

  pub compact_size_utf8_be-RoundTrip : RoundTrip compact_size_utf8_be IsString
  compact_size_utf8_be-RoundTrip t h = text-back (λ buff. buff) t refl refl (encode-IsByte t h.0) h

  -- A text without halves of surrogate pairs is written behind the number of its UTF-8 bytes, and
  -- read back.
  pub compact_size_utf8_be-ReadBack :
      (t : Text) (rest : List ℕ) → IsString t → ReadBack compact_size_utf8_be t rest
  compact_size_utf8_be-ReadBack =
      RoundTrip-ReadBack compact_size_utf8_be compact_size_utf8_be-RoundTrip
