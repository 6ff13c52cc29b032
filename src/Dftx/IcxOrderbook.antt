-- ===== src/Dftx/IcxOrderbook.antt =====
-- packages/jellyfish-transaction/src/script/dftx/dftx_icxorderbook.ts: the messages and their composers, over the
-- type N of amounts and the type S of scripts.
pub mod RoundTrip
use jellyfishsdk.Prelude.{ℕ, Option}
use jellyfishsdk.Platform.{SmartBuffer, BigNumber}
use jellyfishsdk.Buffer.Codec.{Codec, record_of, ◌▹◌}
use jellyfishsdk.Buffer.Hex.{Text}
use jellyfishsdk.Buffer.Words.{uint8, uint32}
use jellyfishsdk.Buffer.VarInt.{var_int}
use jellyfishsdk.Buffer.Amounts.{satoshi_as_big_number}
use jellyfishsdk.Buffer.Texts.{compact_size_utf8_be}
use jellyfishsdk.Buffer.Fields.{hex_be_buffer_le, compact_size_hex, compact_size_optional_hex}

pub record IcxCreateOrder (N S : Type 0) : Type 0 where
  pub order_type : ℕ
  pub token_id : ℕ
  pub owner_address : S
  pub receive_pubkey : Option Text
  pub amount_from : N
  pub amount_to_fill : N
  pub order_price : N
  pub expiry : ℕ

-- `CICXCreateOrder`
unfoldable pub c_icx_create_order :
    {N S : Type 0} ⦃sb : SmartBuffer⦄ ⦃bn : BigNumber N⦄ → Codec S → Codec (IcxCreateOrder N S)
c_icx_create_order c_script =
    record_of
      (λ m. (
        m.order_type,
        (
          m.token_id,
          (
            m.owner_address,
            (m.receive_pubkey, (m.amount_from, (m.amount_to_fill, (m.order_price, m.expiry)))),
          ),
        ),
      ))
      (λ (
        order_type,
        (
          token_id,
          (owner_address, (receive_pubkey, (amount_from, (amount_to_fill, (order_price, expiry))))),
        ),
      ).
        record {
          order_type = order_type;
          token_id = token_id;
          owner_address = owner_address;
          receive_pubkey = receive_pubkey;
          amount_from = amount_from;
          amount_to_fill = amount_to_fill;
          order_price = order_price;
          expiry = expiry;
        })
      (uint8 ▹ var_int ▹ c_script ▹ compact_size_optional_hex ▹ satoshi_as_big_number
        ▹ satoshi_as_big_number ▹ satoshi_as_big_number ▹ uint32)

pub record IcxMakeOffer (N S : Type 0) : Type 0 where
  pub order_tx : Text
  pub amount : N
  pub owner_address : S
  pub receive_pubkey : Option Text
  pub expiry : ℕ
  pub taker_fee : N

-- `CICXMakeOffer`
unfoldable pub c_icx_make_offer :
    {N S : Type 0} ⦃sb : SmartBuffer⦄ ⦃bn : BigNumber N⦄ → Codec S → Codec (IcxMakeOffer N S)
c_icx_make_offer c_script =
    record_of
      (λ m.
        (m.order_tx, (m.amount, (m.owner_address, (m.receive_pubkey, (m.expiry, m.taker_fee))))))
      (λ (order_tx, (amount, (owner_address, (receive_pubkey, (expiry, taker_fee))))). record {
        order_tx = order_tx;
        amount = amount;
        owner_address = owner_address;
        receive_pubkey = receive_pubkey;
        expiry = expiry;
        taker_fee = taker_fee;
      })
      (hex_be_buffer_le 32
        ▹ satoshi_as_big_number
        ▹ c_script
        ▹ compact_size_optional_hex
        ▹ uint32
        ▹ satoshi_as_big_number)

pub record IcxSubmitDfcHtlc (N : Type 0) : Type 0 where
  pub offer_tx : Text
  pub amount : N
  pub hash : Text
  pub timeout : ℕ

-- `CICXSubmitDFCHTLC`
unfoldable pub c_icx_submit_dfc_htlc :
    {N : Type 0} ⦃sb : SmartBuffer⦄ ⦃bn : BigNumber N⦄ → Codec (IcxSubmitDfcHtlc N)
c_icx_submit_dfc_htlc =
    record_of (λ m. (m.offer_tx, (m.amount, (m.hash, m.timeout))))
      (λ (offer_tx, (amount, (hash, timeout))). record {
        offer_tx = offer_tx;
        amount = amount;
        hash = hash;
        timeout = timeout;
      })
      (hex_be_buffer_le 32 ▹ satoshi_as_big_number ▹ hex_be_buffer_le 32 ▹ uint32)

pub record IcxSubmitExtHtlc (N : Type 0) : Type 0 where
  pub offer_tx : Text
  pub amount : N
  pub hash : Text
  pub htlc_script_address : Text
  pub owner_pubkey : Text
  pub timeout : ℕ

-- `CICXSubmitEXTHTLC`
unfoldable pub c_icx_submit_ext_htlc :
    {N : Type 0} ⦃sb : SmartBuffer⦄ ⦃bn : BigNumber N⦄ → Codec (IcxSubmitExtHtlc N)
c_icx_submit_ext_htlc =
    record_of
      (λ m.
        (m.offer_tx, (m.amount, (m.hash, (m.htlc_script_address, (m.owner_pubkey, m.timeout))))))
      (λ (offer_tx, (amount, (hash, (htlc_script_address, (owner_pubkey, timeout))))). record {
        offer_tx = offer_tx;
        amount = amount;
        hash = hash;
        htlc_script_address = htlc_script_address;
        owner_pubkey = owner_pubkey;
        timeout = timeout;
      })
      (hex_be_buffer_le 32
        ▹ satoshi_as_big_number
        ▹ hex_be_buffer_le 32
        ▹ compact_size_utf8_be
        ▹ compact_size_hex
        ▹ uint32)

pub record IcxClaimDfcHtlc : Type 0 where
  pub dfc_htlc_tx : Text
  pub seed : Text

-- `CICXClaimDFCHTLC`
unfoldable pub c_icx_claim_dfc_htlc : ⦃sb : SmartBuffer⦄ → Codec IcxClaimDfcHtlc
c_icx_claim_dfc_htlc =
    record_of (λ m. (m.dfc_htlc_tx, m.seed))
      (λ (dfc_htlc_tx, seed). record { dfc_htlc_tx = dfc_htlc_tx; seed = seed })
      (hex_be_buffer_le 32 ▹ compact_size_hex)

pub record IcxCloseOrder : Type 0 where
  pub order_tx : Text

-- `CICXCloseOrder`
unfoldable pub c_icx_close_order : ⦃sb : SmartBuffer⦄ → Codec IcxCloseOrder
c_icx_close_order =
    record_of (λ m. m.order_tx) (λ order_tx. record { order_tx = order_tx }) (hex_be_buffer_le 32)

pub record IcxCloseOffer : Type 0 where
  pub offer_tx : Text

-- `CICXCloseOffer`
unfoldable pub c_icx_close_offer : ⦃sb : SmartBuffer⦄ → Codec IcxCloseOffer
c_icx_close_offer =
    record_of (λ m. m.offer_tx) (λ offer_tx. record { offer_tx = offer_tx }) (hex_be_buffer_le 32)
