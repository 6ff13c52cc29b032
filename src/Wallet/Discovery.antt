-- ===== src/Wallet/Discovery.antt =====
-- packages/jellyfish-wallet/src/wallet.ts: what is discovered is all that is in use without a gap.
use jellyfishsdk.Prelude.{
  ℕ, zero, suc, ◌+◌, ◌≤◌, ◌≡◌, ◌⊎◌, inl, inr, refl, arith, List, [], ◌∷◌, length, map, All, ap, sym,
  subst, Error, Bool, true, false, Result, ok, err, ◌>>=◌,
}
use jellyfishsdk.Wallet.{JellyfishWallet, get, is_usable, discover_from, discover}

-- Numbers from `i` on.
abbrev pub indices : ℕ → ℕ → List ℕ
indices i zero = []
indices i (suc n) = i ∷ indices (suc i) n

module _ {HdNode Account : Type 0} (wallet : JellyfishWallet HdNode Account) where
  abbrev pub IsActive : ℕ → Type 0
  IsActive i = wallet.providers.is_active (get wallet i) ≡ ok true

  -- Accounts in use from `i` on, all of them that stand before one that is not, or `rounds`.
  abbrev pub IsRun : ℕ → ℕ → List Account → Type 0
  IsRun rounds i accounts =
      (accounts ≡ map (get wallet) (indices i (length accounts)))
      × All IsActive (indices i (length accounts))
      × (length accounts ≤ rounds)
      × ((length accounts ≡ rounds)
          ⊎ (wallet.providers.is_active (get wallet (i + length accounts)) ≡ ok false))

  abbrev IsRunOrThrown : ℕ → ℕ → Result (List Account) → Type 0
  IsRunOrThrown rounds i (ok accounts) = IsRun rounds i accounts
  IsRunOrThrown rounds i (err e) = Unit

  found_active :
      (rounds i : ℕ)
      → IsActive i
      → discover_from wallet (suc rounds) i
        ≡ (discover_from wallet rounds (suc i) >>= λ rest. ok (get wallet i ∷ rest))
  unfolding discover_from
  found_active rounds i e = rw (e, discover_from)

  found_inactive :
      (rounds i : ℕ)
      → wallet.providers.is_active (get wallet i) ≡ ok false
      → discover_from wallet (suc rounds) i ≡ ok []
  unfolding discover_from
  found_inactive rounds i e = rw (e, discover_from)

  found_error :
      (rounds i : ℕ) (thrown : Error)
      → wallet.providers.is_active (get wallet i) ≡ err thrown
      → discover_from wallet (suc rounds) i ≡ err thrown
  unfolding discover_from
  found_error rounds i thrown e = rw (e, discover_from)

  run_longer :
      (rounds i : ℕ) (r : Result (List Account))
      → IsActive i
      → IsRunOrThrown rounds (suc i) r
      → IsRunOrThrown (suc rounds) i (r >>= λ rest. ok (get wallet i ∷ rest))
  run_longer rounds i (err e) active h = tt
  run_longer rounds i (ok accounts) active (same, all, le, inl e) =
      (ap (λ xs. get wallet i ∷ xs) same, (active, all), omega arith, inl (ap suc e))
  run_longer rounds i (ok accounts) active (same, all, le, inr e) =
      let there : i + suc (length accounts) ≡ suc i + length accounts = omega arith in
      (ap (λ xs. get wallet i ∷ xs) same, (active, all), omega arith, inr (rw there e))

  discover_from-IsRunOrThrown :
      (rounds i : ℕ) → IsRunOrThrown rounds i (discover_from wallet rounds i)
  unfolding discover_from
  discover_from-IsRunOrThrown zero i = (refl, tt, omega arith, inl refl)
  discover_from-IsRunOrThrown (suc rounds) i =
      go (wallet.providers.is_active (get wallet i)) refl
        (discover_from-IsRunOrThrown rounds (suc i))
    where
      go :
          (r : Result Bool)
          → wallet.providers.is_active (get wallet i) ≡ r
          → IsRunOrThrown rounds (suc i) (discover_from wallet rounds (suc i))
          → IsRunOrThrown (suc rounds) i (discover_from wallet (suc rounds) i)
      go (ok true) e h =
          subst (IsRunOrThrown (suc rounds) i) (sym (found_active rounds i e))
            (run_longer rounds i (discover_from wallet rounds (suc i)) e h)
      go (ok false) e h =
          subst (IsRunOrThrown (suc rounds) i) (sym (found_inactive rounds i e))
            (refl, tt, omega arith, inr (let same : i + 0 ≡ i = omega arith in rw same e))
      go (err thrown) e h =
          subst (IsRunOrThrown (suc rounds) i) (sym (found_error rounds i thrown e)) tt

  usable_from :
      (i n : ℕ)
      → All IsActive (indices i n)
      → All (λ j. is_usable wallet j ≡ ok true) (indices (suc i) n)
  unfolding is_usable
  usable_from i zero h = tt
  usable_from i (suc n) (a, h) = (a, usable_from (suc i) n h)

  -- The discovered accounts are the first ones in their order, each in use, up to the first one that
  -- is not or the maximum. They and the one behind them are usable. So the first account is not
  -- discovered, and none is, where it is not in use: the comment of the source says that it always
  -- is.
  pub discover_lem :
      (max_accounts : ℕ) (accounts : List Account)
      → discover wallet max_accounts ≡ ok accounts
      → IsRun max_accounts 0 accounts
        × All (λ i. is_usable wallet i ≡ ok true) (indices 0 (suc (length accounts)))
  unfolding discover is_usable
  discover_lem max_accounts accounts e =
      let run : IsRun max_accounts 0 accounts =
        subst (IsRunOrThrown max_accounts 0) e (discover_from-IsRunOrThrown max_accounts 0) in
      (run, (refl, usable_from 0 (length accounts) run.1))
