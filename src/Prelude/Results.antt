-- ===== src/Prelude/Results.antt =====
-- A call that may throw: its value, or the error that it throws.
use mathlib.Core.Path.{◌≡◌, refl}
use mathlib.Core.Bool.{Bool, true, false}

-- The errors that the modelled code throws, and those of the buffer that it reads and writes.
pub data Error : Type 0 where
  out_of_range end_of_buffer : Error
  -- No error of the source: a loop has used up its rounds.
  out_of_fuel : Error
  unsafe_integer invalid_length empty_hex too_many_decimals : Error
  height_out_of_range call_failed not_found : Error
  sighash_unsupported key_mismatch witness_script_required : Error
  no_inputs inputs_mismatch lock_time_set : Error
  push_data_too_large invalid_push_data unknown_signature not_one_byte : Error

-- What a call returns or throws.
pub data Result {ℓ} (Value : Type ℓ) : Type ℓ where
  err : Error → Result Value
  ok : Value → Result Value

-- `if (test) throw e`
abbrev pub throw_if : Bool → Error → Result (Unit {0})
throw_if false thrown = ok tt
throw_if true thrown = err thrown

-- One call after another: what the first throws, the two throw.
infixl 5 ◌>>=◌
abbrev pub ◌>>=◌ {ℓ κ} :
    {Value : Type ℓ} {Next : Type κ} → Result Value → (Value → Result Next) → Result Next
err thrown >>= next = err thrown
ok value >>= next = next value

-- Two continuations that agree on the value agree behind it.
pub >>=-congr {ℓ κ} :
    {A : Type ℓ} {B : Type κ} (m : Result A) (f g : A → Result B)
    → ((a : A) → m ≡ ok a → f a ≡ g a)
    → (m >>= f) ≡ (m >>= g)
>>=-congr (ok a) f g h = h a refl
>>=-congr (err e) f g h = refl

-- A statement, and the call that follows it.
infixl 5 ◌>>◌
abbrev pub ◌>>◌ {κ} : {Next : Type κ} → Result (Unit {0}) → Result Next → Result Next
first >> next = first >>= λ done. next

-- A chain that returns has a first call that returns.
pub >>=-eq-ok {ℓ κ} :
    {A : Type ℓ} {B : Type κ} (call : Result A) (next : A → Result B) {b : B}
    → (call >>= next) ≡ ok b
    → (a : A) × (call ≡ ok a) × (next a ≡ ok b)
>>=-eq-ok (err thrown) next h = cc
>>=-eq-ok (ok value) next h = (value, refl, h)
