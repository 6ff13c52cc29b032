-- ===== src/Dftx/Fits.antt =====
-- Bounds of the numbers in a message.
use jellyfishsdk.Prelude.{ℕ, ◌^◌, ◌<◌, ◌≤◌, arith, [], end_of_buffer}
use jellyfishsdk.Platform.{SmartBuffer}
use jellyfishsdk.Buffer.Codec.Ending.{
  EndTrip, IsPresent, trailing, trailing-EndTrip, RoundTrip-EndTrip,
}
use jellyfishsdk.Buffer.Words.{uint16, uint16-RoundTrip}
use jellyfishsdk.Buffer.CompactSize.{max_safe_integer}

abbrev pub IsUint16 : ℕ → Type 0
IsUint16 v = v < 65536

abbrev pub IsUint32 : ℕ → Type 0
IsUint32 v = v < 2 ^ 32

abbrev pub IsSafe : ℕ → Type 0
IsSafe v = v ≤ max_safe_integer

pub trailing-uint16-EndTrip : ⦃sb : SmartBuffer⦄ → EndTrip (trailing uint16) (IsPresent IsUint16)
trailing-uint16-EndTrip ⦃sb = sb⦄ =
    trailing-EndTrip uint16 end_of_buffer (sb.read_uint16_le_end [] (omega arith))
      (RoundTrip-EndTrip uint16 uint16-RoundTrip)
