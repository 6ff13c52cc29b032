-- ===== src/Buffer/Utf8.antt =====
-- Node's `Buffer.from(_, 'utf-8')` and `toString('utf-8')`. A text is the list of its code points,
-- where half a surrogate pair stands for itself.
use jellyfishsdk.Prelude.{ℕ, ◌-◌, ◌+◌, ◌*◌, ◌/◌, ◌%◌, ◌<◌, ◌≤◌, ◌≡◌, refl, arith, ◌⊎◌}
use jellyfishsdk.Prelude.{List, [], ◌∷◌, ◌++◌, All, All-append, leb, ltb, ◌==◌, ◌&&◌, if◌then◌else◌}
use jellyfishsdk.Platform.{IsByte}
use jellyfishsdk.Buffer.Hex.{Text}

abbrev pub replacement : ℕ
replacement = 0xfffd

-- Half a surrogate pair is written as the replacement character.
unfoldable pub encode_char : ℕ → List ℕ
encode_char c =
    if ltb c 0x80
    then c ∷ []
    else if ltb c 0x800
    then (0xc0 + c / 64) ∷ (0x80 + c % 64) ∷ []
    else if leb 0xd800 c && leb c 0xdfff
    then 0xef ∷ 0xbf ∷ 0xbd ∷ []
    else if ltb c 0x10000
    then (0xe0 + c / 4096) ∷ (0x80 + c / 64 % 64) ∷ (0x80 + c % 64) ∷ []
    else (0xf0 + c / 262144) ∷ (0x80 + c / 4096 % 64) ∷ (0x80 + c / 64 % 64) ∷ (0x80 + c % 64) ∷ []

unfoldable pub encode : Text → List ℕ
encode [] = []
encode (c ∷ cs) = encode_char c ++ encode cs

-- Between two characters, or inside one: how many bytes it still needs, the bounds of the next
-- one, and the bits so far.
pub data Decoder : Type 0 where
  between : Decoder
  inside : ℕ → ℕ → ℕ → ℕ → Decoder

-- The first byte of a character.
unfoldable pub start : ℕ → Decoder × Text
start b =
    if ltb b 0x80
    then (between, b ∷ [])
    else if leb 0xc2 b && leb b 0xdf
    then (inside 1 0x80 0xbf (b % 32), [])
    else if b == 0xe0
    then (inside 2 0xa0 0xbf 0, [])
    else if b == 0xed
    then (inside 2 0x80 0x9f 13, [])
    else if leb 0xe1 b && leb b 0xef
    then (inside 2 0x80 0xbf (b % 16), [])
    else if b == 0xf0
    then (inside 3 0x90 0xbf 0, [])
    else if b == 0xf4
    then (inside 3 0x80 0x8f 4, [])
    else if leb 0xf1 b && leb b 0xf3
    then (inside 3 0x80 0xbf (b % 8), [])
    else (between, replacement ∷ [])

unfoldable pub continue : ℕ → ℕ → Decoder × Text
continue needed bits =
    if leb needed 1 then (between, bits ∷ []) else (inside (needed - 1) 0x80 0xbf bits, [])

-- A byte that cannot continue the character starts the next one, after a replacement.
unfoldable pub step : Decoder → ℕ → Decoder × Text
step between b = start b
step (inside needed lower upper bits) b =
    let (next, out) = start b in
    if leb lower b && leb b upper
    then continue needed (bits * 64 + b % 64)
    else (next, replacement ∷ out)

unfoldable pub decode : Decoder → List ℕ → Text
decode between [] = []
decode (inside needed lower upper bits) [] = replacement ∷ []
decode state (b ∷ bs) = let (next, out) = step state b in out ++ decode next bs

-- A code point that is no half of a surrogate pair.
abbrev pub IsScalar : ℕ → Type 0
IsScalar c = (c < 0xd800) ⊎ (0xdfff < c) × (c < 0x110000)

encode_char-IsByte : (c : ℕ) → IsScalar c → All IsByte (encode_char c)
unfolding encode_char
encode_char-IsByte c h = ground arith

-- How a character is read back, by the number of its bytes.
decode_two :
    (c : ℕ) (rest : List ℕ)
    → 0x80 ≤ c
    → c < 0x800
    → decode between ((0xc0 + c / 64) ∷ (0x80 + c % 64) ∷ rest) ≡ c ∷ decode between rest
unfolding decode step start continue
decode_two c rest lo hi = ground arith

decode_three :
    (c : ℕ) (rest : List ℕ)
    → 0x800 ≤ c
    → c < 0x10000
    → IsScalar c
    → decode between ((0xe0 + c / 4096) ∷ (0x80 + c / 64 % 64) ∷ (0x80 + c % 64) ∷ rest)
      ≡ c ∷ decode between rest
unfolding decode step start continue
decode_three c rest lo hi h = ground arith

decode_four :
    (c : ℕ) (rest : List ℕ)
    → 0x10000 ≤ c
    → c < 0x110000
    → decode between (
        (0xf0 + c / 262144)
        ∷ (0x80 + c / 4096 % 64)
        ∷ (0x80 + c / 64 % 64)
        ∷ (0x80 + c % 64)
        ∷ rest)
      ≡ c ∷ decode between rest
unfolding decode step start continue
decode_four c rest lo hi = ground arith

decode-encode_char :
    (c : ℕ) (rest : List ℕ)
    → IsScalar c
    → decode between (encode_char c ++ rest) ≡ c ∷ decode between rest
unfolding encode_char decode step start
decode-encode_char c rest h =
    ground (arith, decode_two c rest, decode_three c rest, decode_four c rest)

pub encode-IsByte : (t : Text) → All IsScalar t → All IsByte (encode t)
unfolding encode
encode-IsByte [] h = tt
encode-IsByte (c ∷ cs) (hc, hcs) =
    All-append IsByte (encode_char c) (encode cs) (encode_char-IsByte c hc) (encode-IsByte cs hcs)

-- A text without halves of surrogate pairs is decoded to itself.
pub decode-encode : (t : Text) → All IsScalar t → decode between (encode t) ≡ t
unfolding encode decode
decode-encode [] h = refl
decode-encode (c ∷ cs) (hc, hcs) = rw (decode-encode_char c (encode cs) hc, decode-encode cs hcs)
