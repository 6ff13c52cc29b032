-- ===== src/Buffer/Codec/Ending.antt =====
-- packages/jellyfish-buffer/src/Composer.ts: a composer that looks at the end of the buffer only
-- reads back what it has written when nothing follows.
use jellyfishsdk.Prelude.{
  ℕ, ◌≡◌, refl, List, [], ◌∷◌, ◌++◌, append-nil, All, All-append, Result, ok, ◌>>=◌, length, ltb,
  Option, none, some, if◌then◌else◌, lt→ltb, Error, err, suc, arith,
}
use jellyfishsdk.Platform.{IsByte, SmartBuffer}
use jellyfishsdk.Buffer.Codec.{Codec, RoundTrip, chain, ◌▹◌, record_of}

abbrev pub EndTrip : {A : Type 0} → Codec A → (A → Type 0) → Type 0
EndTrip {A} c P =
    (a : A)
    → P a
    → (bs : List ℕ) × (c.to_buffer a ≡ ok bs) × All IsByte bs × (c.from_buffer bs ≡ ok (a, []))

-- It at one value.
abbrev pub EndBack : {A : Type 0} → Codec A → A → Type 0
EndBack c a =
    (bs : List ℕ) × (c.to_buffer a ≡ ok bs) × All IsByte bs × (c.from_buffer bs ≡ ok (a, []))

pub RoundTrip-EndTrip : {A : Type 0} (c : Codec A) {P : A → Type 0} → RoundTrip c P → EndTrip c P
RoundTrip-EndTrip c hc a h =
    let (bs, w, bytes, r) = hc a h in (bs, w, bytes, rw (← append-nil bs) (r []))

module _ {A B : Type 0} where
  pub ▹-EndTrip :
      (c : Codec A) (d : Codec B) {P : A → Type 0} {Q : B → Type 0}
      → RoundTrip c P
      → EndTrip d Q
      → EndTrip (c ▹ d) (λ p. P p.0 × Q p.1)
  unfolding ◌▹◌ chain
  ▹-EndTrip c d hc hd (a, b) (p, q) =
      let (xs, wx, bx, rx) = hc a p in
      let (ys, wy, by, ry) = hd b q in
      (xs ++ ys, rw (wx, wy), All-append IsByte xs ys bx by, rw (rx ys, ry))

  pub record_of-EndTrip :
      (get : B → A) (set : A → B) (c : Codec A) (P : A → Type 0)
      → ((b : B) → set (get b) ≡ b)
      → EndTrip c P
      → EndTrip (record_of get set c) (λ b. P (get b))
  unfolding record_of
  record_of-EndTrip get set c P same hc b p =
      let (bs, w, bytes, r) = hc (get b) p in (bs, w, bytes, rw (r, same b))

-- A field that is not there fits.
abbrev pub IsPresent : {A : Type 0} → (A → Type 0) → Option A → Type 0
IsPresent P none = Unit
IsPresent P (some a) = P a

module _ {A : Type 0} ⦃sb : SmartBuffer⦄ (c : Codec A) where
  -- `if (buffer.remaining() > 0)` and `if (field !== undefined)`
  unfoldable pub read_trailing : List ℕ → Result (Option A × List ℕ)
  read_trailing bs = do
    let field = (do (a, rest) ← c.from_buffer bs; ok (some a, rest))
    if ltb 0 (sb.remaining bs) then field else ok (none, bs)

  unfoldable pub write_trailing : Option A → Result (List ℕ)
  write_trailing none = ok []
  write_trailing (some a) = c.to_buffer a

  abbrev pub trailing : Codec (Option A)
  trailing = record { from_buffer = read_trailing; to_buffer = write_trailing }

  read_trailing-some :
      (a : A) (bs : List ℕ) (e : Error)
      → c.from_buffer [] ≡ err e
      → c.from_buffer bs ≡ ok (a, [])
      → read_trailing bs ≡ ok (some a, [])
  unfolding read_trailing
  read_trailing-some a [] e short r = cc
  read_trailing-some a (b ∷ bs) e short r =
      rw (sb.remaining_lem (b ∷ bs), lt→ltb 0 (suc (length bs)) (omega arith), r)

  -- A field that is not there leaves nothing, and one that is there does not read an empty buffer.
  pub trailing-EndTrip :
      {P : A → Type 0} (e : Error)
      → c.from_buffer [] ≡ err e
      → EndTrip c P
      → EndTrip trailing (IsPresent P)
  unfolding read_trailing write_trailing
  trailing-EndTrip e short hc none h = ([], refl, tt, rw (sb.remaining_lem []))
  trailing-EndTrip e short hc (some a) h =
      let (bs, w, bytes, r) = hc a h in (bs, w, bytes, read_trailing-some a bs e short r)
