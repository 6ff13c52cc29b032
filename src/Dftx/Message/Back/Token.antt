-- ===== src/Dftx/Message/Back/Token.antt =====
-- packages/jellyfish-transaction/src/script/dftx/dftx.ts: the messages of Dftx/Token.
use jellyfishsdk.Prelude.{refl}
use jellyfishsdk.Platform.{SmartBuffer, BigNumber}
use jellyfishsdk.Buffer.Codec.{Codec, RoundTrip}
use jellyfishsdk.Buffer.Codec.Ending.{RoundTrip-EndTrip}
use jellyfishsdk.Dftx.Token.{
  c_token_mint, c_token_burn, c_token_create, c_token_update, c_token_update_any,
}
use jellyfishsdk.Dftx.Token.RoundTrip.{
  IsTokenMint, IsTokenBurn, IsTokenCreate, IsTokenUpdate, IsTokenUpdateAny, c_token_mint-RoundTrip,
  c_token_burn-RoundTrip, c_token_create-RoundTrip, c_token_update-RoundTrip,
  c_token_update_any-RoundTrip,
}
use jellyfishsdk.Dftx.Message.{
  type_of, token_mint, token_burn, token_create, token_update, token_update_any,
}
use jellyfishsdk.Dftx.Message.Dispatch.{readers, find_reader}
use jellyfishsdk.Dftx.Message.Dispatch.{write_data}
use jellyfishsdk.Dftx.Token.{TokenMint, TokenBurn, TokenCreate, TokenUpdate, TokenUpdateAny}
use jellyfishsdk.Dftx.Message.Back.{MessageBack, mapped_back}

module _ {N S : Type 0} ⦃sb : SmartBuffer⦄ ⦃bn : BigNumber N⦄ (c_script : Codec S)
    (IsWritten : S → Type 0) (script_back : RoundTrip c_script IsWritten) where
  pub token_mint_back :
      (m : TokenMint N S)
      → IsTokenMint IsWritten m
      → MessageBack {N = N} c_script IsWritten (token_mint m)
  unfolding write_data type_of readers find_reader
  token_mint_back m h =
      mapped_back {N = N} c_script IsWritten token_mint (c_token_mint c_script)
        (IsTokenMint IsWritten)
        (RoundTrip-EndTrip (c_token_mint c_script)
          (c_token_mint-RoundTrip N c_script IsWritten script_back))
        m h refl refl

  pub token_burn_back :
      (m : TokenBurn N S)
      → IsTokenBurn IsWritten m
      → MessageBack {N = N} c_script IsWritten (token_burn m)
  unfolding write_data type_of readers find_reader
  token_burn_back m h =
      mapped_back {N = N} c_script IsWritten token_burn (c_token_burn c_script)
        (IsTokenBurn IsWritten)
        (RoundTrip-EndTrip (c_token_burn c_script)
          (c_token_burn-RoundTrip N c_script IsWritten script_back))
        m h refl refl

  pub token_create_back :
      (m : TokenCreate N)
      → IsTokenCreate m
      → MessageBack {N = N} c_script IsWritten (token_create m)
  unfolding write_data type_of readers find_reader
  token_create_back m h =
      mapped_back {N = N} c_script IsWritten token_create c_token_create IsTokenCreate
        (RoundTrip-EndTrip c_token_create (c_token_create-RoundTrip N)) m h refl refl

  pub token_update_back :
      (m : TokenUpdate) → IsTokenUpdate m → MessageBack {N = N} c_script IsWritten (token_update m)
  unfolding write_data type_of readers find_reader
  token_update_back m h =
      mapped_back {N = N} c_script IsWritten token_update c_token_update IsTokenUpdate
        (RoundTrip-EndTrip c_token_update c_token_update-RoundTrip) m h refl refl

  pub token_update_any_back :
      (m : TokenUpdateAny N)
      → IsTokenUpdateAny m
      → MessageBack {N = N} c_script IsWritten (token_update_any m)
  unfolding write_data type_of readers find_reader
  token_update_any_back m h =
      mapped_back {N = N} c_script IsWritten token_update_any c_token_update_any IsTokenUpdateAny
        (RoundTrip-EndTrip c_token_update_any (c_token_update_any-RoundTrip N)) m h refl refl
