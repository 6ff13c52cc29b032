-- ===== src/Dftx/Proposals.antt =====
-- packages/jellyfish-transaction/src/script/dftx/dftx_governance.ts: the messages and their composers, over the
-- type N of amounts and the type S of scripts.
pub mod RoundTrip
use jellyfishsdk.Prelude.{ℕ}
use jellyfishsdk.Platform.{SmartBuffer, BigNumber}
use jellyfishsdk.Buffer.Codec.{Codec, record_of, ◌▹◌}
use jellyfishsdk.Buffer.Hex.{Text}
use jellyfishsdk.Buffer.Words.{uint8, uint32}
use jellyfishsdk.Buffer.Amounts.{satoshi_as_big_number}
use jellyfishsdk.Buffer.Texts.{compact_size_utf8_be}
use jellyfishsdk.Buffer.Fields.{hex_be_buffer_le}

pub record LiqPoolSplit (N : Type 0) : Type 0 where
  pub token_id : ℕ
  pub value : N

-- `CLiqPoolSplit`
unfoldable pub c_liq_pool_split :
    {N : Type 0} ⦃sb : SmartBuffer⦄ ⦃bn : BigNumber N⦄ → Codec (LiqPoolSplit N)
c_liq_pool_split =
    record_of (λ m. (m.token_id, m.value))
      (λ (token_id, value). record { token_id = token_id; value = value })
      (uint32 ▹ satoshi_as_big_number)

pub record CreateProposal (N S : Type 0) : Type 0 where
  pub proposal_type : ℕ
  pub address : S
  pub n_amount : N
  pub n_cycles : ℕ
  pub title : Text
  pub context : Text
  pub contexthash : Text
  pub options : ℕ

-- `CCreateProposal`
unfoldable pub c_create_proposal :
    {N S : Type 0} ⦃sb : SmartBuffer⦄ ⦃bn : BigNumber N⦄ → Codec S → Codec (CreateProposal N S)
c_create_proposal c_script =
    record_of
      (λ m. (
        m.proposal_type,
        (m.address, (m.n_amount, (m.n_cycles, (m.title, (m.context, (m.contexthash, m.options)))))),
      ))
      (λ (
        proposal_type,
        (address, (n_amount, (n_cycles, (title, (context, (contexthash, options)))))),
      ).
        record {
          proposal_type = proposal_type;
          address = address;
          n_amount = n_amount;
          n_cycles = n_cycles;
          title = title;
          context = context;
          contexthash = contexthash;
          options = options;
        })
      (uint8 ▹ c_script ▹ satoshi_as_big_number ▹ uint8 ▹ compact_size_utf8_be
        ▹ compact_size_utf8_be ▹ compact_size_utf8_be ▹ uint8)

pub record Vote : Type 0 where
  pub proposal_id : Text
  pub masternode_id : Text
  pub vote_decision : ℕ

-- `CVote`
unfoldable pub c_vote : ⦃sb : SmartBuffer⦄ → Codec Vote
c_vote =
    record_of (λ m. (m.proposal_id, (m.masternode_id, m.vote_decision)))
      (λ (proposal_id, (masternode_id, vote_decision)). record {
        proposal_id = proposal_id;
        masternode_id = masternode_id;
        vote_decision = vote_decision;
      })
      (hex_be_buffer_le 32 ▹ hex_be_buffer_le 32 ▹ uint8)
