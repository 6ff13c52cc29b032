-- ===== src/Dftx/Loans.antt =====
-- packages/jellyfish-transaction/src/script/dftx/dftx_loans.ts: the messages and their composers, over the
-- type N of amounts and the type S of scripts.
pub mod RoundTrip
use jellyfishsdk.Prelude.{ℕ, List, Bool}
use jellyfishsdk.Platform.{SmartBuffer, BigNumber}
use jellyfishsdk.Buffer.Codec.{Codec, record_of, ◌▹◌}
use jellyfishsdk.Buffer.Hex.{Text}
use jellyfishsdk.Buffer.Words.{uint32}
use jellyfishsdk.Buffer.VarInt.{var_int}
use jellyfishsdk.Buffer.Amounts.{satoshi_as_big_number, big_number_uint64}
use jellyfishsdk.Buffer.Texts.{compact_size_utf8_be}
use jellyfishsdk.Buffer.Fields.{hex_be_buffer_le, ubool8, compact_size_array}
use jellyfishsdk.Dftx.Balance.{TokenBalanceUint32, c_token_balance}
use jellyfishsdk.Dftx.Price.{CurrencyPair, c_currency_pair}

pub record SetLoanScheme (N : Type 0) : Type 0 where
  pub ratio : ℕ
  pub rate : N
  pub identifier : Text
  pub update : N

-- `CSetLoanScheme`
unfoldable pub c_set_loan_scheme :
    {N : Type 0} ⦃sb : SmartBuffer⦄ ⦃bn : BigNumber N⦄ → Codec (SetLoanScheme N)
c_set_loan_scheme =
    record_of (λ m. (m.ratio, (m.rate, (m.identifier, m.update))))
      (λ (ratio, (rate, (identifier, update))). record {
        ratio = ratio;
        rate = rate;
        identifier = identifier;
        update = update;
      })
      (uint32 ▹ satoshi_as_big_number ▹ compact_size_utf8_be ▹ big_number_uint64)

pub record DestroyLoanScheme (N : Type 0) : Type 0 where
  pub identifier : Text
  pub height : N

-- `CDestroyLoanScheme`
unfoldable pub c_destroy_loan_scheme :
    {N : Type 0} ⦃sb : SmartBuffer⦄ ⦃bn : BigNumber N⦄ → Codec (DestroyLoanScheme N)
c_destroy_loan_scheme =
    record_of (λ m. (m.identifier, m.height))
      (λ (identifier, height). record { identifier = identifier; height = height })
      (compact_size_utf8_be ▹ big_number_uint64)

pub record SetDefaultLoanScheme : Type 0 where
  pub identifier : Text

-- `CSetDefaultLoanScheme`
unfoldable pub c_set_default_loan_scheme : ⦃sb : SmartBuffer⦄ → Codec SetDefaultLoanScheme
c_set_default_loan_scheme =
    record_of (λ m. m.identifier) (λ identifier. record { identifier = identifier })
      (compact_size_utf8_be)

pub record SetCollateralToken (N : Type 0) : Type 0 where
  pub token : ℕ
  pub factor : N
  pub currency_pair : CurrencyPair
  pub activate_after_block : ℕ

-- `CSetCollateralToken`
unfoldable pub c_set_collateral_token :
    {N : Type 0} ⦃sb : SmartBuffer⦄ ⦃bn : BigNumber N⦄ → Codec (SetCollateralToken N)
c_set_collateral_token =
    record_of (λ m. (m.token, (m.factor, (m.currency_pair, m.activate_after_block))))
      (λ (token, (factor, (currency_pair, activate_after_block))). record {
        token = token;
        factor = factor;
        currency_pair = currency_pair;
        activate_after_block = activate_after_block;
      })
      (var_int ▹ satoshi_as_big_number ▹ c_currency_pair ▹ uint32)

pub record SetLoanToken (N : Type 0) : Type 0 where
  pub symbol : Text
  pub name : Text
  pub currency_pair : CurrencyPair
  pub mintable : Bool
  pub interest : N

-- `CSetLoanToken`
unfoldable pub c_set_loan_token :
    {N : Type 0} ⦃sb : SmartBuffer⦄ ⦃bn : BigNumber N⦄ → Codec (SetLoanToken N)
c_set_loan_token =
    record_of (λ m. (m.symbol, (m.name, (m.currency_pair, (m.mintable, m.interest)))))
      (λ (symbol, (name, (currency_pair, (mintable, interest)))). record {
        symbol = symbol;
        name = name;
        currency_pair = currency_pair;
        mintable = mintable;
        interest = interest;
      })
      (compact_size_utf8_be ▹ compact_size_utf8_be ▹ c_currency_pair ▹ ubool8
        ▹ satoshi_as_big_number)

pub record UpdateLoanToken (N : Type 0) : Type 0 where
  pub symbol : Text
  pub name : Text
  pub currency_pair : CurrencyPair
  pub mintable : Bool
  pub interest : N
  pub token_tx : Text

-- `CUpdateLoanToken`
unfoldable pub c_update_loan_token :
    {N : Type 0} ⦃sb : SmartBuffer⦄ ⦃bn : BigNumber N⦄ → Codec (UpdateLoanToken N)
c_update_loan_token =
    record_of (λ m. (m.symbol, (m.name, (m.currency_pair, (m.mintable, (m.interest, m.token_tx))))))
      (λ (symbol, (name, (currency_pair, (mintable, (interest, token_tx))))). record {
        symbol = symbol;
        name = name;
        currency_pair = currency_pair;
        mintable = mintable;
        interest = interest;
        token_tx = token_tx;
      })
      (compact_size_utf8_be
        ▹ compact_size_utf8_be
        ▹ c_currency_pair
        ▹ ubool8
        ▹ satoshi_as_big_number
        ▹ hex_be_buffer_le 32)

pub record TakeLoan (N S : Type 0) : Type 0 where
  pub vault_id : Text
  pub to : S
  pub token_amounts : List (TokenBalanceUint32 N)

-- `CTakeLoan`
unfoldable pub c_take_loan :
    {N S : Type 0} ⦃sb : SmartBuffer⦄ ⦃bn : BigNumber N⦄ → Codec S → Codec (TakeLoan N S)
c_take_loan c_script =
    record_of (λ m. (m.vault_id, (m.to, m.token_amounts)))
      (λ (vault_id, (to, token_amounts)). record {
        vault_id = vault_id;
        to = to;
        token_amounts = token_amounts;
      })
      (hex_be_buffer_le 32 ▹ c_script ▹ compact_size_array c_token_balance)

pub record PaybackLoan (N S : Type 0) : Type 0 where
  pub vault_id : Text
  pub from : S
  pub token_amounts : List (TokenBalanceUint32 N)

-- `CPaybackLoan`
unfoldable pub c_payback_loan :
    {N S : Type 0} ⦃sb : SmartBuffer⦄ ⦃bn : BigNumber N⦄ → Codec S → Codec (PaybackLoan N S)
c_payback_loan c_script =
    record_of (λ m. (m.vault_id, (m.from, m.token_amounts)))
      (λ (vault_id, (from, token_amounts)). record {
        vault_id = vault_id;
        from = from;
        token_amounts = token_amounts;
      })
      (hex_be_buffer_le 32 ▹ c_script ▹ compact_size_array c_token_balance)

pub record TokenPayback (N : Type 0) : Type 0 where
  pub dtoken : ℕ
  pub amounts : List (TokenBalanceUint32 N)

-- `CTokenPayback`
unfoldable pub c_token_payback :
    {N : Type 0} ⦃sb : SmartBuffer⦄ ⦃bn : BigNumber N⦄ → Codec (TokenPayback N)
c_token_payback =
    record_of (λ m. (m.dtoken, m.amounts))
      (λ (dtoken, amounts). record { dtoken = dtoken; amounts = amounts })
      (var_int ▹ compact_size_array c_token_balance)

pub record PaybackLoanV2 (N S : Type 0) : Type 0 where
  pub vault_id : Text
  pub from : S
  pub loans : List (TokenPayback N)

-- `CPaybackLoanV2`
unfoldable pub c_payback_loan_v2 :
    {N S : Type 0} ⦃sb : SmartBuffer⦄ ⦃bn : BigNumber N⦄ → Codec S → Codec (PaybackLoanV2 N S)
c_payback_loan_v2 c_script =
    record_of (λ m. (m.vault_id, (m.from, m.loans)))
      (λ (vault_id, (from, loans)). record { vault_id = vault_id; from = from; loans = loans })
      (hex_be_buffer_le 32 ▹ c_script ▹ compact_size_array c_token_payback)
