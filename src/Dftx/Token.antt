-- ===== src/Dftx/Token.antt =====
-- packages/jellyfish-transaction/src/script/dftx/dftx_token.ts: the messages and their composers, over the
-- type N of amounts and the type S of scripts.
pub mod RoundTrip
use jellyfishsdk.Prelude.{ℕ, List, Bool}
use jellyfishsdk.Platform.{SmartBuffer, BigNumber}
use jellyfishsdk.Buffer.Codec.{Codec, record_of, ◌▹◌}
use jellyfishsdk.Buffer.Hex.{Text}
use jellyfishsdk.Buffer.Words.{uint8, uint32}
use jellyfishsdk.Buffer.Amounts.{big_number_uint64}
use jellyfishsdk.Buffer.Texts.{compact_size_utf8_be}
use jellyfishsdk.Buffer.Fields.{hex_be_buffer_le, compact_size_array}
use jellyfishsdk.Dftx.Flags.{flags1, flags3}
use jellyfishsdk.Dftx.Balance.{TokenBalanceUint32, c_token_balance}

pub record TokenMint (N S : Type 0) : Type 0 where
  pub balances : List (TokenBalanceUint32 N)
  pub to : S

-- `CTokenMint`
unfoldable pub c_token_mint :
    {N S : Type 0} ⦃sb : SmartBuffer⦄ ⦃bn : BigNumber N⦄ → Codec S → Codec (TokenMint N S)
c_token_mint c_script =
    record_of (λ m. (m.balances, m.to)) (λ (balances, to). record { balances = balances; to = to })
      (compact_size_array c_token_balance ▹ c_script)

pub record TokenCreate (N : Type 0) : Type 0 where
  pub symbol : Text
  pub name : Text
  pub decimal : ℕ
  pub limit : N
  pub is_dat : Bool
  pub tradeable : Bool
  pub mintable : Bool

-- `CTokenCreate`
unfoldable pub c_token_create :
    {N : Type 0} ⦃sb : SmartBuffer⦄ ⦃bn : BigNumber N⦄ → Codec (TokenCreate N)
c_token_create =
    record_of
      (λ m. (m.symbol, (m.name, (m.decimal, (m.limit, (m.is_dat, (m.tradeable, m.mintable)))))))
      (λ (symbol, (name, (decimal, (limit, (is_dat, (tradeable, mintable)))))). record {
        symbol = symbol;
        name = name;
        decimal = decimal;
        limit = limit;
        is_dat = is_dat;
        tradeable = tradeable;
        mintable = mintable;
      })
      (compact_size_utf8_be ▹ compact_size_utf8_be ▹ uint8 ▹ big_number_uint64 ▹ flags3)

pub record TokenUpdate : Type 0 where
  pub creation_tx : Text
  pub is_dat : Bool

-- `CTokenUpdate`
unfoldable pub c_token_update : ⦃sb : SmartBuffer⦄ → Codec TokenUpdate
c_token_update =
    record_of (λ m. (m.creation_tx, m.is_dat))
      (λ (creation_tx, is_dat). record { creation_tx = creation_tx; is_dat = is_dat })
      (hex_be_buffer_le 32 ▹ flags1)

pub record TokenUpdateAny (N : Type 0) : Type 0 where
  pub creation_tx : Text
  pub symbol : Text
  pub name : Text
  pub decimal : ℕ
  pub limit : N
  pub is_dat : Bool
  pub tradeable : Bool
  pub mintable : Bool

-- `CTokenUpdateAny`
unfoldable pub c_token_update_any :
    {N : Type 0} ⦃sb : SmartBuffer⦄ ⦃bn : BigNumber N⦄ → Codec (TokenUpdateAny N)
c_token_update_any =
    record_of
      (λ m. (
        m.creation_tx,
        (m.symbol, (m.name, (m.decimal, (m.limit, (m.is_dat, (m.tradeable, m.mintable)))))),
      ))
      (λ (creation_tx, (symbol, (name, (decimal, (limit, (is_dat, (tradeable, mintable))))))).
        record {
          creation_tx = creation_tx;
          symbol = symbol;
          name = name;
          decimal = decimal;
          limit = limit;
          is_dat = is_dat;
          tradeable = tradeable;
          mintable = mintable;
        })
      (hex_be_buffer_le 32
        ▹ compact_size_utf8_be
        ▹ compact_size_utf8_be
        ▹ uint8
        ▹ big_number_uint64
        ▹ flags3)

pub record VariantScript (S : Type 0) : Type 0 where
  pub variant : ℕ
  pub context : S

-- `CVariantScript`
unfoldable pub c_variant_script :
    {S : Type 0} ⦃sb : SmartBuffer⦄ → Codec S → Codec (VariantScript S)
c_variant_script c_script =
    record_of (λ m. (m.variant, m.context))
      (λ (variant, context). record { variant = variant; context = context }) (uint32 ▹ c_script)

pub record TokenBurn (N S : Type 0) : Type 0 where
  pub amounts : List (TokenBalanceUint32 N)
  pub from : S
  pub burn_type : ℕ
  pub variant_context : VariantScript S

-- `CTokenBurn`
unfoldable pub c_token_burn :
    {N S : Type 0} ⦃sb : SmartBuffer⦄ ⦃bn : BigNumber N⦄ → Codec S → Codec (TokenBurn N S)
c_token_burn c_script =
    record_of (λ m. (m.amounts, (m.from, (m.burn_type, m.variant_context))))
      (λ (amounts, (from, (burn_type, variant_context))). record {
        amounts = amounts;
        from = from;
        burn_type = burn_type;
        variant_context = variant_context;
      })
      (compact_size_array c_token_balance ▹ c_script ▹ uint8 ▹ c_variant_script c_script)
