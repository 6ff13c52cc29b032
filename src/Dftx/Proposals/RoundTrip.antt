-- ===== src/Dftx/Proposals/RoundTrip.antt =====
-- packages/jellyfish-transaction/src/script/dftx/dftx_governance.ts: the messages are read back as written.
use jellyfishsdk.Prelude.{refl}
use jellyfishsdk.Platform.{SmartBuffer, BigNumber, IsByte}
use jellyfishsdk.Buffer.Codec.{Codec, RoundTrip, ▹-RoundTrip, record_of-RoundTrip}
use jellyfishsdk.Buffer.Words.{uint8-RoundTrip, uint32-RoundTrip}
use jellyfishsdk.Buffer.Amounts.{IsAmount, satoshi_as_big_number-RoundTrip}
use jellyfishsdk.Buffer.Texts.{IsString, compact_size_utf8_be-RoundTrip}
use jellyfishsdk.Buffer.Fields.Laws.{IsHexOf, hex_be_buffer_le-RoundTrip}
use jellyfishsdk.Dftx.Fits.{IsUint32}
use jellyfishsdk.Dftx.Proposals.{
  LiqPoolSplit, c_liq_pool_split, CreateProposal, c_create_proposal, Vote, c_vote,
}

abbrev pub IsLiqPoolSplit : {N : Type 0} ⦃bn : BigNumber N⦄ → LiqPoolSplit N → Type 0
IsLiqPoolSplit m = IsUint32 m.token_id × IsAmount m.value

pub c_liq_pool_split-RoundTrip :
    (N : Type 0) ⦃sb : SmartBuffer⦄ ⦃bn : BigNumber N⦄
    → RoundTrip {A = LiqPoolSplit N} c_liq_pool_split IsLiqPoolSplit
unfolding c_liq_pool_split
c_liq_pool_split-RoundTrip N =
    record_of-RoundTrip _ _ _ _ (λ m. refl)
      (▹-RoundTrip _ _ uint32-RoundTrip (satoshi_as_big_number-RoundTrip N))

abbrev pub IsCreateProposal :
    {N S : Type 0} ⦃bn : BigNumber N⦄ → (S → Type 0) → CreateProposal N S → Type 0
IsCreateProposal IsWritten m =
    IsByte m.proposal_type
    × (IsWritten m.address
        × (IsAmount m.n_amount
            × (IsByte m.n_cycles
                × (IsString m.title
                    × (IsString m.context × (IsString m.contexthash × IsByte m.options))))))

pub c_create_proposal-RoundTrip :
    (N : Type 0) {S : Type 0} ⦃sb : SmartBuffer⦄ ⦃bn : BigNumber N⦄ (c_script : Codec S)
    (IsWritten : S → Type 0)
    → RoundTrip c_script IsWritten
    → RoundTrip {A = CreateProposal N S} (c_create_proposal c_script) (IsCreateProposal IsWritten)
unfolding c_create_proposal
c_create_proposal-RoundTrip N c_script IsWritten script_back =
    record_of-RoundTrip _ _ _ _ (λ m. refl)
      (▹-RoundTrip _ _ uint8-RoundTrip (
        ▹-RoundTrip _ _ script_back (
          ▹-RoundTrip _ _ (satoshi_as_big_number-RoundTrip N) (
            ▹-RoundTrip _ _ uint8-RoundTrip (
              ▹-RoundTrip _ _ compact_size_utf8_be-RoundTrip (
                ▹-RoundTrip _ _ compact_size_utf8_be-RoundTrip
                  (▹-RoundTrip _ _ compact_size_utf8_be-RoundTrip uint8-RoundTrip)))))))

abbrev pub IsVote : Vote → Type 0
IsVote m = IsHexOf 32 m.proposal_id × (IsHexOf 32 m.masternode_id × IsByte m.vote_decision)

pub c_vote-RoundTrip : ⦃sb : SmartBuffer⦄ → RoundTrip c_vote IsVote
unfolding c_vote
c_vote-RoundTrip =
    record_of-RoundTrip _ _ _ _ (λ m. refl)
      (▹-RoundTrip _ _ (hex_be_buffer_le-RoundTrip 32)
        (▹-RoundTrip _ _ (hex_be_buffer_le-RoundTrip 32) uint8-RoundTrip))
