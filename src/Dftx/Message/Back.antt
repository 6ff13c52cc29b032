-- ===== src/Dftx/Message/Back.antt =====
-- packages/jellyfish-transaction/src/script/dftx/dftx.ts: the data of a message is read back by
-- the reader that its type finds. Each child has the messages of one file.
pub mod Pool
pub mod Token
pub mod Account
pub mod Oracles
pub mod Masternode
pub mod IcxOrderbook
pub mod Proposals
pub mod Loans
pub mod Vault
pub mod Governance
pub mod EvmTx
use jellyfishsdk.Prelude.{ℕ, ◌≡◌, refl, List, [], some, All, ok}
use jellyfishsdk.Platform.{IsByte, SmartBuffer, BigNumber}
use jellyfishsdk.Buffer.Codec.{Codec, empty}
use jellyfishsdk.Buffer.Codec.Ending.{EndTrip}
use jellyfishsdk.Dftx.Unmapped.{c_defi_op_unmapped-EndTrip, c_auto_auth_prep}
use jellyfishsdk.Dftx.Message.{Message, type_of, unmapped, auto_auth_prep}
use jellyfishsdk.Dftx.Message.Dispatch.{as_message, readers, find_reader}
use jellyfishsdk.Dftx.Message.Dispatch.{reader_or_unmapped, read_data, write_data}
use jellyfishsdk.Dftx.Message.Fits.{IsMessage}
use jellyfishsdk.Dftx.Unmapped.{DefiOpUnmapped}

module _ {N S : Type 0} ⦃sb : SmartBuffer⦄ ⦃bn : BigNumber N⦄ (c_script : Codec S)
    (IsWritten : S → Type 0) where
  -- The data of the message is written, as bytes, and read back from them.
  abbrev pub MessageBack : Message N S → Type 0
  MessageBack m =
      (bs : List ℕ) × (write_data c_script m ≡ ok bs)
      × All IsByte bs
      × (read_data c_script (type_of m) bs ≡ ok (m, []))

  pub mapped_back :
      {A : Type 0} (make : A → Message N S) (c : Codec A) (P : A → Type 0)
      → EndTrip c P
      → (a : A) → P a
      → write_data c_script (make a) ≡ c.to_buffer a
      → find_reader (type_of (make a)) (readers c_script) ≡ some (as_message make c)
      → MessageBack (make a)
  unfolding read_data reader_or_unmapped as_message
  mapped_back make c P hc a h w found =
      let (bs, e, bytes, r) = hc a h in (bs, rw (w, e), bytes, rw (found, r))

  pub unmapped_back :
      (n : ℕ) (m : DefiOpUnmapped)
      → IsMessage {N = N} c_script IsWritten (unmapped n m)
      → MessageBack (unmapped n m)
  unfolding read_data reader_or_unmapped as_message write_data type_of
  unmapped_back n m (byte, absent, h) =
      let (bs, e, bytes, r) = c_defi_op_unmapped-EndTrip m h in (bs, e, bytes, rw (absent, r))

  pub auto_auth_prep_back : MessageBack auto_auth_prep
  unfolding write_data type_of readers find_reader empty
  auto_auth_prep_back =
      mapped_back (λ _. auto_auth_prep) c_auto_auth_prep (λ _. Unit {0})
        (λ _ _. ([], refl, tt, refl)) tt tt refl refl
