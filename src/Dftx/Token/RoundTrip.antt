-- ===== src/Dftx/Token/RoundTrip.antt =====
-- packages/jellyfish-transaction/src/script/dftx/dftx_token.ts: the messages are read back as written.
use jellyfishsdk.Prelude.{refl}
use jellyfishsdk.Platform.{SmartBuffer, BigNumber, IsByte}
use jellyfishsdk.Buffer.Codec.{Codec, RoundTrip, ▹-RoundTrip, record_of-RoundTrip}
use jellyfishsdk.Buffer.Words.{uint8-RoundTrip, uint32-RoundTrip}
use jellyfishsdk.Buffer.Amounts.{IsUint64, big_number_uint64-RoundTrip}
use jellyfishsdk.Buffer.Texts.{IsString, compact_size_utf8_be-RoundTrip}
use jellyfishsdk.Buffer.Fields.Laws.{
  IsHexOf, IsArray, hex_be_buffer_le-RoundTrip, compact_size_array-RoundTrip,
}
use jellyfishsdk.Dftx.Fits.{IsUint32}
use jellyfishsdk.Dftx.Flags.{flags1-RoundTrip, flags3-RoundTrip}
use jellyfishsdk.Dftx.Balance.RoundTrip.{IsTokenBalanceUint32, c_token_balance-RoundTrip}
use jellyfishsdk.Dftx.Token.{
  TokenMint, c_token_mint, TokenCreate, c_token_create, TokenUpdate, c_token_update, TokenUpdateAny,
  c_token_update_any, VariantScript, c_variant_script, TokenBurn, c_token_burn,
}

abbrev pub IsTokenMint : {N S : Type 0} ⦃bn : BigNumber N⦄ → (S → Type 0) → TokenMint N S → Type 0
IsTokenMint IsWritten m = IsArray IsTokenBalanceUint32 m.balances × IsWritten m.to

pub c_token_mint-RoundTrip :
    (N : Type 0) {S : Type 0} ⦃sb : SmartBuffer⦄ ⦃bn : BigNumber N⦄ (c_script : Codec S)
    (IsWritten : S → Type 0)
    → RoundTrip c_script IsWritten
    → RoundTrip {A = TokenMint N S} (c_token_mint c_script) (IsTokenMint IsWritten)
unfolding c_token_mint
c_token_mint-RoundTrip N c_script IsWritten script_back =
    record_of-RoundTrip _ _ _ _ (λ m. refl)
      (▹-RoundTrip _ _ (compact_size_array-RoundTrip _ _ (c_token_balance-RoundTrip N)) script_back)

abbrev pub IsTokenCreate : {N : Type 0} ⦃bn : BigNumber N⦄ → TokenCreate N → Type 0
IsTokenCreate m =
    IsString m.symbol × (IsString m.name × (IsByte m.decimal × (IsUint64 m.limit × Unit {0})))

pub c_token_create-RoundTrip :
    (N : Type 0) ⦃sb : SmartBuffer⦄ ⦃bn : BigNumber N⦄
    → RoundTrip {A = TokenCreate N} c_token_create IsTokenCreate
unfolding c_token_create
c_token_create-RoundTrip N =
    record_of-RoundTrip _ _ _ _ (λ m. refl)
      (▹-RoundTrip _ _ compact_size_utf8_be-RoundTrip (
        ▹-RoundTrip _ _ compact_size_utf8_be-RoundTrip (
          ▹-RoundTrip _ _ uint8-RoundTrip
            (▹-RoundTrip _ _ (big_number_uint64-RoundTrip N) flags3-RoundTrip))))

abbrev pub IsTokenUpdate : TokenUpdate → Type 0
IsTokenUpdate m = IsHexOf 32 m.creation_tx × Unit {0}

pub c_token_update-RoundTrip : ⦃sb : SmartBuffer⦄ → RoundTrip c_token_update IsTokenUpdate
unfolding c_token_update
c_token_update-RoundTrip =
    record_of-RoundTrip _ _ _ _ (λ m. refl)
      (▹-RoundTrip _ _ (hex_be_buffer_le-RoundTrip 32) flags1-RoundTrip)

abbrev pub IsTokenUpdateAny : {N : Type 0} ⦃bn : BigNumber N⦄ → TokenUpdateAny N → Type 0
IsTokenUpdateAny m =
    IsHexOf 32 m.creation_tx
    × (IsString m.symbol × (IsString m.name × (IsByte m.decimal × (IsUint64 m.limit × Unit {0}))))

pub c_token_update_any-RoundTrip :
    (N : Type 0) ⦃sb : SmartBuffer⦄ ⦃bn : BigNumber N⦄
    → RoundTrip {A = TokenUpdateAny N} c_token_update_any IsTokenUpdateAny
unfolding c_token_update_any
c_token_update_any-RoundTrip N =
    record_of-RoundTrip _ _ _ _ (λ m. refl)
      (▹-RoundTrip _ _ (hex_be_buffer_le-RoundTrip 32) (
        ▹-RoundTrip _ _ compact_size_utf8_be-RoundTrip (
          ▹-RoundTrip _ _ compact_size_utf8_be-RoundTrip (
            ▹-RoundTrip _ _ uint8-RoundTrip
              (▹-RoundTrip _ _ (big_number_uint64-RoundTrip N) flags3-RoundTrip)))))

abbrev pub IsVariantScript : {S : Type 0} → (S → Type 0) → VariantScript S → Type 0
IsVariantScript IsWritten m = IsUint32 m.variant × IsWritten m.context

pub c_variant_script-RoundTrip :
    {S : Type 0} ⦃sb : SmartBuffer⦄ (c_script : Codec S) (IsWritten : S → Type 0)
    → RoundTrip c_script IsWritten
    → RoundTrip (c_variant_script c_script) (IsVariantScript IsWritten)
unfolding c_variant_script
c_variant_script-RoundTrip c_script IsWritten script_back =
    record_of-RoundTrip _ _ _ _ (λ m. refl) (▹-RoundTrip _ _ uint32-RoundTrip script_back)

abbrev pub IsTokenBurn : {N S : Type 0} ⦃bn : BigNumber N⦄ → (S → Type 0) → TokenBurn N S → Type 0
IsTokenBurn IsWritten m =
    IsArray IsTokenBalanceUint32 m.amounts
    × (IsWritten m.from × (IsByte m.burn_type × IsVariantScript IsWritten m.variant_context))

pub c_token_burn-RoundTrip :
    (N : Type 0) {S : Type 0} ⦃sb : SmartBuffer⦄ ⦃bn : BigNumber N⦄ (c_script : Codec S)
    (IsWritten : S → Type 0)
    → RoundTrip c_script IsWritten
    → RoundTrip {A = TokenBurn N S} (c_token_burn c_script) (IsTokenBurn IsWritten)
unfolding c_token_burn
c_token_burn-RoundTrip N c_script IsWritten script_back =
    record_of-RoundTrip _ _ _ _ (λ m. refl)
      (▹-RoundTrip _ _ (compact_size_array-RoundTrip _ _ (c_token_balance-RoundTrip N)) (
        ▹-RoundTrip _ _ script_back (
          ▹-RoundTrip _ _ uint8-RoundTrip
            (c_variant_script-RoundTrip c_script IsWritten script_back))))
