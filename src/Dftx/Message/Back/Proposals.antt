-- ===== src/Dftx/Message/Back/Proposals.antt =====
-- packages/jellyfish-transaction/src/script/dftx/dftx.ts: the messages of Dftx/Proposals.
use jellyfishsdk.Prelude.{refl}
use jellyfishsdk.Platform.{SmartBuffer, BigNumber}
use jellyfishsdk.Buffer.Codec.{Codec, RoundTrip}
use jellyfishsdk.Buffer.Codec.Ending.{RoundTrip-EndTrip}
use jellyfishsdk.Dftx.Proposals.{c_create_proposal, c_vote}
use jellyfishsdk.Dftx.Proposals.RoundTrip.{
  IsCreateProposal, IsVote, c_create_proposal-RoundTrip, c_vote-RoundTrip,
}
use jellyfishsdk.Dftx.Message.{type_of, create_cfp, create_voc, vote}
use jellyfishsdk.Dftx.Message.Dispatch.{readers, find_reader}
use jellyfishsdk.Dftx.Message.Dispatch.{write_data}
use jellyfishsdk.Dftx.Proposals.{CreateProposal, Vote}
use jellyfishsdk.Dftx.Message.Back.{MessageBack, mapped_back}

module _ {N S : Type 0} ⦃sb : SmartBuffer⦄ ⦃bn : BigNumber N⦄ (c_script : Codec S)
    (IsWritten : S → Type 0) (script_back : RoundTrip c_script IsWritten) where
  pub create_cfp_back :
      (m : CreateProposal N S)
      → IsCreateProposal IsWritten m
      → MessageBack {N = N} c_script IsWritten (create_cfp m)
  unfolding write_data type_of readers find_reader
  create_cfp_back m h =
      mapped_back {N = N} c_script IsWritten create_cfp (c_create_proposal c_script)
        (IsCreateProposal IsWritten)
        (RoundTrip-EndTrip (c_create_proposal c_script)
          (c_create_proposal-RoundTrip N c_script IsWritten script_back))
        m h refl refl

  pub create_voc_back :
      (m : CreateProposal N S)
      → IsCreateProposal IsWritten m
      → MessageBack {N = N} c_script IsWritten (create_voc m)
  unfolding write_data type_of readers find_reader
  create_voc_back m h =
      mapped_back {N = N} c_script IsWritten create_voc (c_create_proposal c_script)
        (IsCreateProposal IsWritten)
        (RoundTrip-EndTrip (c_create_proposal c_script)
          (c_create_proposal-RoundTrip N c_script IsWritten script_back))
        m h refl refl

  pub vote_back : (m : Vote) → IsVote m → MessageBack {N = N} c_script IsWritten (vote m)
  unfolding write_data type_of readers find_reader
  vote_back m h =
      mapped_back {N = N} c_script IsWritten vote c_vote IsVote
        (RoundTrip-EndTrip c_vote c_vote-RoundTrip) m h refl refl
