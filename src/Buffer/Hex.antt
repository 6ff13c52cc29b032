-- ===== src/Buffer/Hex.antt =====
-- The hex strings of Node's Buffer: `Buffer.from(text, 'hex')` and `toString('hex')`.
-- A JavaScript string is the list of its character codes.
use jellyfishsdk.Prelude.{ℕ, ◌+◌, ◌-◌, ◌*◌, ◌/◌, ◌%◌, ◌<◌, ◌≤◌, ◌≡◌, refl, ap, arith}
use jellyfishsdk.Prelude.{Option, none, some, List, [], ◌∷◌, leb, ltb, if◌then◌else◌}
use jellyfishsdk.Prelude.{length, All, ◌&&◌, ◌⊎◌}
use jellyfishsdk.Platform.{IsByte}

abbrev pub Text : Type 0
Text = List ℕ

-- `toString('hex')` writes lower-case digits.
unfoldable pub hex_digit : ℕ → ℕ
hex_digit v = if ltb v 10 then v + b'0' else v + 87

-- `Buffer.from(_, 'hex')` takes digits of either case.
pub hex_value : ℕ → Option ℕ
hex_value c =
    if leb b'0' c && leb c b'9'
    then some (c - b'0')
    else if leb b'a' c && leb c b'f'
    then some (c - 87)
    else if leb b'A' c && leb c b'F'
    then some (c - 55)
    else none

unfoldable pub to_hex : List ℕ → Text
to_hex [] = []
to_hex (b ∷ bs) = hex_digit (b / 16) ∷ hex_digit (b % 16) ∷ to_hex bs

hex_pair : Option ℕ → Option ℕ → List ℕ → List ℕ
hex_pair (some v) (some w) rest = (16 * v + w) ∷ rest
hex_pair (some v) none rest = []
hex_pair none w rest = []

-- Decoding stops at the first pair that is no byte, and drops an odd last digit.
unfoldable pub from_hex : Text → List ℕ
unfolding hex_pair hex_value
from_hex [] = []
from_hex (c ∷ []) = []
from_hex (c ∷ d ∷ rest) = hex_pair (hex_value c) (hex_value d) (from_hex rest)

-- A text that `toString('hex')` can return: lower-case digits in pairs.
abbrev pub IsHexDigit : ℕ → Type 0
IsHexDigit c = (b'0' ≤ c) × (c ≤ b'9') ⊎ (b'a' ≤ c) × (c ≤ b'f')

abbrev pub IsHex : Text → Type 0
IsHex [] = Unit
IsHex (c ∷ []) = ⊥
IsHex (c ∷ d ∷ rest) = IsHexDigit c × IsHexDigit d × IsHex rest

hex_value-digit : (v : ℕ) → v < 16 → hex_value (hex_digit v) ≡ some v
unfolding hex_value hex_digit
hex_value-digit v h = ground arith

hex_digit-value :
    (c : ℕ) → IsHexDigit c → (v : ℕ) × (hex_value c ≡ some v) × (hex_digit v ≡ c) × (v < 16)
unfolding hex_value hex_digit
hex_digit-value c h =
    (if leb c b'9' then c - b'0' else c - 87, ground arith, ground arith, ground arith)

pub from_hex-to_hex : (bs : List ℕ) → All IsByte bs → from_hex (to_hex bs) ≡ bs
unfolding to_hex from_hex
from_hex-to_hex [] h = refl
from_hex-to_hex (b ∷ bs) (hb, hbs) =
    rw
      (
        hex_value-digit (b / 16) (omega arith),
        hex_value-digit (b % 16) (omega arith),
        from_hex-to_hex bs hbs,
      )
      (ap (λ x. x ∷ bs) (omega arith))

pub to_hex-IsHex : (bs : List ℕ) → All IsByte bs → IsHex (to_hex bs)
unfolding to_hex hex_digit
to_hex-IsHex [] h = tt
to_hex-IsHex (b ∷ bs) (hb, hbs) = (ground arith, ground arith, to_hex-IsHex bs hbs)

pub length-to_hex : (bs : List ℕ) → length (to_hex bs) ≡ 2 * length bs
unfolding to_hex
length-to_hex [] = refl
length-to_hex (b ∷ bs) = omega (arith, length-to_hex bs)

-- A hex text is the encoding of the bytes that it decodes to.
pub from_hex_inverse :
    (t : Text)
    → IsHex t
    → (to_hex (from_hex t) ≡ t) × All IsByte (from_hex t) × (length t ≡ 2 * length (from_hex t))
unfolding to_hex from_hex
from_hex_inverse [] h = (refl, tt, refl)
from_hex_inverse (c ∷ []) h = absurd h
from_hex_inverse (c ∷ d ∷ rest) (hc, hd, hr) =
    let (v, ev, dv, lv) = hex_digit-value c hc in
    let (w, ew, dw, lw) = hex_digit-value d hd in
    let (er, br, lr) = from_hex_inverse rest hr in
    rw (ev, ew)
      (
        cc (ap hex_digit (byte_high v w lw), ap hex_digit (byte_low v w lw)),
        (omega arith, br),
        omega arith,
      )
  where
    byte_high : (v w : ℕ) → w < 16 → (16 * v + w) / 16 ≡ v
    byte_high v w h = omega arith

    byte_low : (v w : ℕ) → w < 16 → (16 * v + w) % 16 ≡ w
    byte_low v w h = omega arith
