-- ===== src/Buffer/VarInt/Inverse.antt =====
-- packages/jellyfish-buffer/src/VarInt.ts: `readVarInt` undoes `writeVarInt`, and its loop ends.
use jellyfishsdk.Prelude.{ℕ, zero, suc, ◌+◌, ◌-◌, ◌*◌, ◌/◌, ◌%◌, ◌^◌, ◌<◌, ◌≤◌, ◌≡◌, refl, arith}
use jellyfishsdk.Prelude.{
  List, [], ◌∷◌, ◌++◌, length, length-append, All, All-append, Bool-cases, inl, inr, leb, le→ltb,
  lt→leb,
}
use jellyfishsdk.Prelude.{if◌then◌else◌, ok, append_assoc, ◌∙◌, ap}
use native.Mathlib.Decide.{dec_le}
use jellyfishsdk.Platform.{IsByte, SmartBuffer}
use jellyfishsdk.Buffer.Codec.{RoundTrip, SizedReadBack}
use jellyfishsdk.Buffer.CompactSize.{max_safe_integer}
use jellyfishsdk.Buffer.VarInt.{var_int_digits, rounds, write_down, write_var_int}
use jellyfishsdk.Buffer.VarInt.{read_var_int_loop, read_var_int, var_int}

-- The encoding in writing order: the digits of n / 128 - 1, each with its top bit set, and then
-- the last seven bits.
unfoldable pub var_int_bytes : ℕ → ℕ → ℕ → List ℕ
var_int_bytes zero top n = []
var_int_bytes (suc k) top n =
    let front = var_int_bytes k 0x80 (n / 128 - 1) in
    if leb n 0x7f then (n % 128 + top) ∷ [] else front ++ ((n % 128 + top) ∷ [])

var_int_bytes-IsByte : (k top n : ℕ) → top ≤ 128 → All IsByte (var_int_bytes k top n)
unfolding var_int_bytes
var_int_bytes-IsByte zero top n h = tt
var_int_bytes-IsByte (suc k) top n h = elim (Bool-cases (leb n 0x7f)) [
  | inl small ↦ rw small (omega arith, tt)
  | inr large ↦ rw large (
      All-append IsByte (var_int_bytes k 128 (n / 128 - 1)) _
        (var_int_bytes-IsByte k 128 (n / 128 - 1) (omega arith)) (omega arith, tt))
]

var_int_bytes-length : (k top n : ℕ) → length (var_int_bytes k top n) ≤ k
unfolding var_int_bytes
var_int_bytes-length zero top n = omega arith
var_int_bytes-length (suc k) top n = elim (Bool-cases (leb n 0x7f)) [
  | inl small ↦ rw small (omega arith)
  | inr large ↦ rw (large, length-append) (omega (arith, var_int_bytes-length k 128 (n / 128 - 1)))
]

bytes-small : (k top n : ℕ) → n ≤ 127 → var_int_bytes (suc k) top n ≡ (n + top) ∷ []
unfolding var_int_bytes
bytes-small k top n h = ground arith

bytes-large :
    (k top n : ℕ)
    → 127 < n
    → var_int_bytes (suc k) top n ≡ var_int_bytes k 128 (n / 128 - 1) ++ ((n % 128 + top) ∷ [])
unfolding var_int_bytes
bytes-large k top n h = rw (lt→leb n 127 h)

module _ ⦃sb : SmartBuffer⦄ where
  write_down-digits :
      (k top n : ℕ) → top ≤ 128 → write_down (var_int_digits k top n) ≡ ok (var_int_bytes k top n)
  unfolding write_down var_int_digits var_int_bytes
  write_down-digits zero top n h = refl
  write_down-digits (suc k) top n h =
      ground (arith, sb.write_uint8_lem (n % 128 + top), write_down-digits k 128 (n / 128 - 1))

  -- A byte with its top bit set is folded in, and the loop goes on.
  loop-more :
      (f n d : ℕ) (rest : List ℕ)
      → d < 128
      → read_var_int_loop (suc f) n ((d + 128) ∷ rest) ≡ read_var_int_loop f (n * 128 + d + 1) rest
  unfolding read_var_int_loop
  loop-more f n d rest h = rw (sb.read_uint8_lem (d + 128) rest, top_bit d h, low_bits d h)
    where
      top_bit : (d : ℕ) → d < 128 → (d + 128) / 128 % 2 ≡ 1
      top_bit d h = omega arith

      low_bits : (d : ℕ) → d < 128 → (d + 128) % 128 ≡ d
      low_bits d h = omega arith

  -- A byte below 128 ends the number.
  loop-last :
      (f n d : ℕ) (rest : List ℕ)
      → d < 128
      → n * 128 + d ≤ max_safe_integer
      → read_var_int_loop (suc f) n (d ∷ rest) ≡ ok (n * 128 + d, rest)
  unfolding read_var_int_loop
  loop-last f n d rest h fits =
      rw (sb.read_uint8_lem d rest, top_bit d h, low_bits d h, le→ltb _ _ fits)
    where
      top_bit : (d : ℕ) → d < 128 → d / 128 % 2 ≡ 0
      top_bit d h = omega arith

      low_bits : (d : ℕ) → d < 128 → d % 128 ≡ d
      low_bits d h = omega arith

  -- The digits before the last one leave n + 1.
  abbrev FrontLeaves : ℕ → Type 0
  FrontLeaves k =
      (n f g : ℕ) (rest : List ℕ)
      → n < 128 ^ suc k
      → g ≡ length (var_int_bytes (suc k) 128 n) + f
      → read_var_int_loop g 0 (var_int_bytes (suc k) 128 n ++ rest)
        ≡ read_var_int_loop f (n + 1) rest

  front-small :
      (k n f g : ℕ) (rest : List ℕ)
      → n ≤ 127
      → g ≡ length (var_int_bytes (suc k) 128 n) + f
      → read_var_int_loop g 0 (var_int_bytes (suc k) 128 n ++ rest)
        ≡ read_var_int_loop f (n + 1) rest
  front-small k n f g rest small e =
      let one : g ≡ suc f = e ∙ rw (bytes-small k 128 n small) (omega arith) in
      rw (one, bytes-small k 128 n small)
        (loop-more f 0 n rest (omega arith) ∙ ap (λ m. read_var_int_loop f m rest) (omega arith))

  -- One more digit in front of the last.
  front-large :
      (k n f g : ℕ) (rest : List ℕ)
      → FrontLeaves k
      → 127 < n
      → n < 128 ^ suc (suc k)
      → g ≡ length (var_int_bytes (suc (suc k)) 128 n) + f
      → read_var_int_loop g 0 (var_int_bytes (suc (suc k)) 128 n ++ rest)
        ≡ read_var_int_loop f (n + 1) rest
  front-large k n f g rest ih large h e =
      rw (bytes-large (suc k) 128 n large, append_assoc)
        (ih (n / 128 - 1) (suc f) g ((n % 128 + 128) ∷ rest) (omega arith) (e ∙ shape)
          ∙ loop-more f (n / 128 - 1 + 1) (n % 128) rest (omega arith)
          ∙ ap (λ m. read_var_int_loop f m rest) (omega arith))
    where
      shape :
          length (var_int_bytes (suc (suc k)) 128 n) + f
          ≡ length (var_int_bytes (suc k) 128 (n / 128 - 1)) + suc f
      shape = rw (bytes-large (suc k) 128 n large, length-append) (omega arith)

  front_leaves : (k : ℕ) → FrontLeaves k
  front_leaves zero n f g rest h e = front-small zero n f g rest (omega arith) e
  front_leaves (suc k) n f g rest h e = elim (dec_le n 127) [
    | yes small ↦ front-small (suc k) n f g rest small e
    | no large ↦ front-large k n f g rest (front_leaves k) (omega arith) h e
  ]

  bytes-read :
      (k n f g : ℕ) (rest : List ℕ)
      → n ≤ max_safe_integer
      → n < 128 ^ suc (suc k)
      → g ≡ length (var_int_bytes (suc (suc k)) 0 n) + f
      → read_var_int_loop g 0 (var_int_bytes (suc (suc k)) 0 n ++ rest) ≡ ok (n, rest)
  bytes-read k n f g rest fits h e = elim (dec_le n 127) [
    | yes small ↦
        let one : g ≡ suc f = e ∙ rw (bytes-small (suc k) 0 n small) (omega arith) in
        rw (one, bytes-small (suc k) 0 n small)
          (loop-last f 0 (n + 0) rest (omega arith) (omega arith)
            ∙ ap (λ m. ok (m, rest)) (omega arith))
    | no large ↦
        let shape : length (var_int_bytes (suc (suc k)) 0 n) + f
            ≡ length (var_int_bytes (suc k) 128 (n / 128 - 1)) + suc f =
          rw (bytes-large (suc k) 0 n (omega arith), length-append) (omega arith) in
        rw (bytes-large (suc k) 0 n (omega arith), append_assoc)
          (front_leaves k (n / 128 - 1) (suc f) g ((n % 128 + 0) ∷ rest) (omega arith) (e ∙ shape)
            ∙ loop-last f (n / 128 - 1 + 1) (n % 128 + 0) rest (omega arith) (omega arith)
            ∙ ap (λ m. ok (m, rest)) (omega arith))
  ]

  read_var_int-bytes :
      (n : ℕ) (rest : List ℕ)
      → n ≤ max_safe_integer
      → read_var_int (var_int_bytes rounds 0 n ++ rest) ≡ ok (n, rest)
  unfolding read_var_int
  read_var_int-bytes n rest h =
      bytes-read 6 n (suc (length rest)) _ rest h (omega arith)
        (omega (arith, length-append {0} (var_int_bytes rounds 0 n) rest))

  pub var_int-RoundTrip : RoundTrip var_int (λ n. n ≤ max_safe_integer)
  unfolding write_var_int
  var_int-RoundTrip n h = (
    var_int_bytes rounds 0 n,
    rw (le→ltb max_safe_integer n h) (write_down-digits rounds 0 n (omega arith)),
    var_int_bytes-IsByte rounds 0 n (omega arith),
    λ rest. read_var_int-bytes n rest h,
  )

  -- A safe integer is written as at most 8 bytes, and reading gives it back with whatever follows
  -- them.
  pub var_int-ReadBack :
      (n : ℕ) (rest : List ℕ)
      → n ≤ max_safe_integer
      → SizedReadBack (λ size. size ≤ 8) var_int n rest
  unfolding var_int-RoundTrip
  var_int-ReadBack n rest h =
      let (bs, w, bytes, r) = var_int-RoundTrip n h in
      (bs, w, bytes, var_int_bytes-length rounds 0 n, r rest)
