-- ===== src/Tests/Wallet.antt =====
-- packages/jellyfish-wallet/src/wallet.ts: a run, and the theorem at a concrete wallet.
use jellyfishsdk.Prelude.{ℕ, ◌≡◌, refl, [], ◌∷◌, All, Bool, true, same_text, ok, ◌||◌}
use jellyfishsdk.Prelude.Decimal.{digits, decimal}
use jellyfishsdk.Buffer.Hex.{Text}
use jellyfishsdk.Wallet.{
  JellyfishWallet, get, is_usable, discover, discover_from, derive_node, derive_path,
}
use jellyfishsdk.Wallet.Discovery.{IsRun, indices, discover_lem}

-- The light wallet: the accounts 0, 1 and 3 are in use. A node is its path, and an account its node.
abbrev wallet : JellyfishWallet Text Text
wallet = record {
  providers = record {
    derive = λ path. path;
    provide = λ node. node;
    is_active = λ account. ok (used account);
  };
  coin_type = 1129;
  purpose = 0;
}
  where
    path_of : ℕ → Text
    path_of last = b'1' ∷ b'1' ∷ b'2' ∷ b'9' ∷ b'/' ∷ b'0' ∷ b'/' ∷ b'0' ∷ b'/' ∷ last ∷ []

    used : Text → Bool
    used account =
        same_text account (path_of b'0')
        || (same_text account (path_of b'1') || same_text account (path_of b'3'))

discovered : discover wallet 100 ≡ ok (get wallet 0 ∷ get wallet 1 ∷ [])
unfolding discover discover_from get derive_node derive_path decimal digits
discovered = refl

discover_lem_example :
    IsRun wallet 100 0 (get wallet 0 ∷ get wallet 1 ∷ [])
    × All (λ i. is_usable wallet i ≡ ok true) (indices 0 3)
discover_lem_example = discover_lem wallet 100 (get wallet 0 ∷ get wallet 1 ∷ []) discovered
