-- ===== src/Dftx/Flags.antt =====
-- packages/jellyfish-transaction/src/script/dftx/dftx_token.ts: the getters and setters that
-- `bitmask1Byte` has there, for the fields isDAT, tradeable and mintable.
use jellyfishsdk.Prelude.{ℕ, zero, suc, refl, arith, List, [], ◌∷◌, Bool, false}
use jellyfishsdk.Platform.{SmartBuffer}
use jellyfishsdk.Buffer.Codec.{Codec, RoundTrip, record_of, mapped-RoundTrip}
use jellyfishsdk.Buffer.BitMask.{bitmask1_byte, bitmask1_byte-RoundTrip}

-- `v[i]`. The composer sets as many flags as it reads.
unfoldable pub flag : ℕ → List Bool → Bool
flag i [] = false
flag zero (b ∷ bs) = b
flag (suc i) (b ∷ bs) = flag i bs

module _ ⦃sb : SmartBuffer⦄ where
  unfoldable pub flags1 : Codec Bool
  unfolding flag
  flags1 = record_of (λ b. b ∷ []) (λ v. flag 0 v) (bitmask1_byte 1)

  unfoldable pub flags3 : Codec (Bool × (Bool × Bool))
  unfolding flag
  flags3 =
      record_of (λ (a, (b, c)). a ∷ b ∷ c ∷ []) (λ v. (flag 0 v, (flag 1 v, flag 2 v)))
        (bitmask1_byte 3)

  pub flags1-RoundTrip : RoundTrip flags1 (λ _. Unit {0})
  unfolding flags1
  flags1-RoundTrip =
      mapped-RoundTrip _ _ _ _ _ (λ b h. (refl, refl)) (bitmask1_byte-RoundTrip 1 (omega arith))

  pub flags3-RoundTrip : RoundTrip flags3 (λ _. Unit {0})
  unfolding flags3
  flags3-RoundTrip =
      mapped-RoundTrip _ _ _ _ _ (λ b h. (refl, refl)) (bitmask1_byte-RoundTrip 3 (omega arith))
