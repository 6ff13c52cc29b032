-- ===== src/Prelude/Decimal.antt =====
-- A number in a template string of the language, its decimal digits, and `parseInt` of digits.
pub mod RoundTrip
use Prim.Native.Nat.{ℕ, zero, suc, ◌+◌, ◌/◌, ◌%◌}
use Prim.Native.Nat.{◌-◌, ◌*◌}
use mathlib.Core.Bool.{Bool, true, ◌&&◌}
use mathlib.Core.List.{List, [], ◌∷◌, ◌++◌}
use jellyfishsdk.Prelude.Tests.{leb, ◌==◌, if◌then◌else◌}

-- The digits, at most as many as the fuel.
unfoldable pub digits : ℕ → ℕ → List ℕ
digits zero n = []
digits (suc fuel) n =
    let more = digits fuel (n / 10) in
    if n / 10 == 0 then (b'0' + n) ∷ [] else more ++ ((b'0' + n % 10) ∷ [])

-- A number has at most as many digits as its value and one.
unfoldable pub decimal : ℕ → List ℕ
decimal n = digits (suc n) n

-- `\d`
unfoldable pub is_digit : ℕ → Bool
is_digit c = leb b'0' c && leb c b'9'

unfoldable pub all_digits : List ℕ → Bool
all_digits [] = true
all_digits (c ∷ cs) = is_digit c && all_digits cs

unfoldable pub parse_from : ℕ → List ℕ → ℕ
parse_from acc [] = acc
parse_from acc (c ∷ cs) = parse_from (acc * 10 + (c - b'0')) cs

-- `parseInt` of digits
unfoldable pub parse_int : List ℕ → ℕ
parse_int cs = parse_from 0 cs
