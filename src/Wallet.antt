-- ===== src/Wallet.antt =====
-- packages/jellyfish-wallet/src/wallet.ts: the accounts of a wallet, and which of them are used.
pub mod Discovery
use jellyfishsdk.Prelude.{
  ℕ, zero, suc, ◌+◌, List, [], ◌∷◌, ◌++◌, Bool, true, false, if◌then◌else◌, Result, ok, err, ◌>>=◌,
}
use jellyfishsdk.Prelude.Decimal.{decimal}
use jellyfishsdk.Buffer.Hex.{Text}

-- `WalletHdNodeProvider.derive` and `WalletAccountProvider.provide`, which derive keys, and
-- `WalletAccount.isActive`, which asks a service.
pub record Providers (HdNode Account : Type 0) : Type 0 where
  pub derive : Text → HdNode
  pub provide : HdNode → Account
  pub is_active : Account → Result Bool

pub record JellyfishWallet (HdNode Account : Type 0) : Type 0 where
  pub providers : Providers HdNode Account
  pub coin_type : ℕ
  pub purpose : ℕ

module _ {HdNode Account : Type 0} where
  unfoldable pub derive_path : JellyfishWallet HdNode Account → ℕ → Text
  derive_path wallet account =
      decimal wallet.coin_type
      ++ (b'/' ∷ (decimal wallet.purpose ++ (b'/' ∷ b'0' ∷ b'/' ∷ decimal account)))

  unfoldable pub derive_node : JellyfishWallet HdNode Account → ℕ → HdNode
  derive_node wallet account = wallet.providers.derive (derive_path wallet account)

  unfoldable pub get : JellyfishWallet HdNode Account → ℕ → Account
  get wallet account = wallet.providers.provide (derive_node wallet account)

  unfoldable pub is_usable : JellyfishWallet HdNode Account → ℕ → Result Bool
  is_usable wallet zero = ok true
  is_usable wallet (suc account) = wallet.providers.is_active (get wallet account)

  -- The rounds of the loop from an account on.
  unfoldable pub discover_from : JellyfishWallet HdNode Account → ℕ → ℕ → Result (List Account)
  discover_from wallet zero i = ok []
  discover_from wallet (suc rounds) i = do
    let account = get wallet i
    active ← wallet.providers.is_active account
    let more = (do rest ← discover_from wallet rounds (suc i); ok (account ∷ rest))
    if active then more else ok []

  unfoldable pub discover : JellyfishWallet HdNode Account → ℕ → Result (List Account)
  discover wallet max_accounts = discover_from wallet max_accounts 0
