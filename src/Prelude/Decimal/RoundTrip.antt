-- ===== src/Prelude/Decimal/RoundTrip.antt =====
-- The decimal digits of a number are read back by `parseInt`.
use Prim.Native.Nat.{ℕ, zero, suc, ◌+◌, ◌-◌, ◌*◌, ◌/◌, ◌%◌, ◌<◌}
use mathlib.Core.Path.{◌≡◌, refl, ◌∙◌}
use mathlib.Core.Logic.{inl, inr}
use mathlib.Core.Bool.{true}
use mathlib.Core.List.{List, [], ◌∷◌, ◌++◌}
use native.Mathlib.Omega.{arith}
use jellyfishsdk.Prelude.Tests.{◌==◌, Bool-cases}
use jellyfishsdk.Prelude.Decimal.{digits, decimal, is_digit, all_digits, parse_from, parse_int}

parse_from-append :
    (acc c : ℕ) (xs : List ℕ)
    → parse_from acc (xs ++ (c ∷ [])) ≡ parse_from acc xs * 10 + (c - b'0')
unfolding parse_from
parse_from-append acc c [] = refl
parse_from-append acc c (x ∷ xs) = parse_from-append (acc * 10 + (x - b'0')) c xs

all_digits-append :
    (c : ℕ) (xs : List ℕ)
    → all_digits xs ≡ true
    → is_digit c ≡ true
    → all_digits (xs ++ (c ∷ [])) ≡ true
unfolding all_digits
all_digits-append c [] h d = rw d
all_digits-append c (x ∷ xs) h d = elim (Bool-cases (is_digit x)) [
  | inl e ↦ rw e (all_digits-append c xs (rw e at h) d)
  | inr e ↦ cc (let bad = rw e at h in bad)
]

digits-parse_from : (fuel n : ℕ) → n < fuel → parse_from 0 (digits fuel n) ≡ n
unfolding digits parse_from
digits-parse_from zero n h = absurd (omega arith)
digits-parse_from (suc fuel) n h = elim (Bool-cases (n / 10 == 0)) [
  | inl e ↦ rw e (let small : n / 10 ≡ 0 = ground arith in omega arith)
  | inr e ↦
      let more : 0 < n / 10 = ground arith in
      rw e (
        parse_from-append 0 (b'0' + n % 10) (digits fuel (n / 10))
        ∙ (let ih = digits-parse_from fuel (n / 10) (omega arith) in omega arith))
]

is_digit_of : (d : ℕ) → d < 10 → is_digit (b'0' + d) ≡ true
unfolding is_digit
is_digit_of d h = ground arith

digits-all_digits : (fuel n : ℕ) → all_digits (digits fuel n) ≡ true
unfolding digits all_digits is_digit
digits-all_digits zero n = refl
digits-all_digits (suc fuel) n = elim (Bool-cases (n / 10 == 0)) [
  | inl e ↦ rw e (let small : n / 10 ≡ 0 = ground arith in rw (is_digit_of n (omega arith)))
  | inr e ↦ rw e (
      all_digits-append (b'0' + n % 10) (digits fuel (n / 10)) (digits-all_digits fuel (n / 10))
        (is_digit_of (n % 10) (omega arith)))
]

pub parse_int-decimal : (n : ℕ) → parse_int (decimal n) ≡ n
unfolding parse_int decimal
parse_int-decimal n = digits-parse_from (suc n) n (omega arith)

pub decimal-all_digits : (n : ℕ) → all_digits (decimal n) ≡ true
unfolding decimal
decimal-all_digits n = digits-all_digits (suc n) n

append-cons : (xs : List ℕ) (x : ℕ) → (c : ℕ) × (cs : List ℕ) × (xs ++ (x ∷ []) ≡ c ∷ cs)
append-cons [] x = (x, [], refl)
append-cons (y ∷ xs) x = (y, xs ++ (x ∷ []), refl)

-- A number has a digit.
pub decimal-cons : (n : ℕ) → (c : ℕ) × (cs : List ℕ) × (decimal n ≡ c ∷ cs)
unfolding decimal digits
decimal-cons n = elim (Bool-cases (n / 10 == 0)) [
  | inl e ↦ (b'0' + n, [], rw e)
  | inr e ↦
      let (c, cs, same) = append-cons (digits n (n / 10)) (b'0' + n % 10) in (c, cs, rw e same)
]
