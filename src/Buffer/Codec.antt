-- ===== src/Buffer/Codec.antt =====
-- packages/jellyfish-buffer/src/Composer.ts: a composer reads a value from a buffer and writes it
-- to one. A list of composers is a chain, and a class of fields is a `record_of` a chain.
pub mod Ending
pub mod Reads
use jellyfishsdk.Prelude.{
  ℕ, zero, suc, ◌≡◌, refl, List, [], ◌∷◌, ◌++◌, append_assoc, length, All, All-append,
}
use jellyfishsdk.Platform.{IsByte}
use jellyfishsdk.Prelude.{Result, ok, ◌>>=◌, arith}

-- `fromBuffer` takes the unread bytes and leaves some; `toBuffer` appends bytes. Either may throw.
pub record Codec (A : Type 0) : Type 0 where
  pub from_buffer : List ℕ → Result (A × List ℕ)
  pub to_buffer : A → Result (List ℕ)

module _ {A : Type 0} {B : Type 0} where
  -- One composer after another. The later one may look at what the earlier one has read.
  unfoldable pub chain : Codec A → (A → Codec B) → Codec (A × B)
  chain c d = record {
    from_buffer = λ bs. do
      (a, rest) ← c.from_buffer bs
      (b, rest') ← (d a).from_buffer rest
      ok ((a, b), rest');
    to_buffer = λ p. do
      xs ← c.to_buffer p.0
      ys ← (d p.0).to_buffer p.1
      ok (xs ++ ys);
  }

  -- The getters and setters of a class: `get` lists its fields, `set` makes it from them.
  unfoldable pub record_of : (B → A) → (A → B) → Codec A → Codec B
  record_of get set c = record {
    from_buffer = λ bs. do
      (a, rest) ← c.from_buffer bs
      ok (set a, rest);
    to_buffer = λ b. c.to_buffer (get b);
  }

infixr 3 ◌▹◌
unfoldable pub ◌▹◌ : {A B : Type 0} → Codec A → Codec B → Codec (A × B)
unfolding chain
c ▹ d = chain c (λ _. d)

-- `composers()` with no composer.
unfoldable pub empty : Codec (Unit {0})
empty = record { from_buffer = λ bs. ok (tt, bs); to_buffer = λ _. ok [] }

module _ {A : Type 0} (c : Codec A) where
  -- `for (let i = 0; i < n; i++) array.push(asC(buffer).data)`
  unfoldable pub read_times : ℕ → List ℕ → Result (List A × List ℕ)
  read_times zero bs = ok ([], bs)
  read_times (suc n) bs = do
    (a, rest) ← c.from_buffer bs
    (as', rest') ← read_times n rest
    ok (a ∷ as', rest')

  -- `array.forEach(data => asC(data).toBuffer(buffer))`
  unfoldable pub write_each : List A → Result (List ℕ)
  write_each [] = ok []
  write_each (a ∷ as') = do xs ← c.to_buffer a; ys ← write_each as'; ok (xs ++ ys)

  -- `ComposableBuffer.array`, with the length that the caller knows.
  abbrev pub array : ℕ → Codec (List A)
  array n = record { from_buffer = read_times n; to_buffer = write_each }

-- On values that fit, writing succeeds with bytes, and reading gives the value back with what
-- follows it.
abbrev pub RoundTrip : {A : Type 0} → Codec A → (A → Type 0) → Type 0
RoundTrip {A} c P =
    (a : A)
    → P a
    → (bs : List ℕ) × (c.to_buffer a ≡ ok bs)
      × All IsByte bs
      × ((rest : List ℕ) → c.from_buffer (bs ++ rest) ≡ ok (a, rest))

module _ {A B : Type 0} where
  pub chain-RoundTrip :
      (c : Codec A) (d : A → Codec B) (P : A → Type 0) (Q : A → B → Type 0)
      → RoundTrip c P
      → ((a : A) → RoundTrip (d a) (Q a))
      → RoundTrip (chain c d) (λ p. P p.0 × Q p.0 p.1)
  unfolding chain
  chain-RoundTrip c d P Q hc hd (a, b) (p, q) =
      let (xs, wx, bx, rx) = hc a p in
      let (ys, wy, by, ry) = hd a b q in
      (
        xs ++ ys,
        rw (wx, wy),
        All-append IsByte xs ys bx by,
        λ rest. rw (append_assoc xs ys rest, rx (ys ++ rest), ry rest),
      )

  pub ▹-RoundTrip :
      (c : Codec A) (d : Codec B) {P : A → Type 0} {Q : B → Type 0}
      → RoundTrip c P
      → RoundTrip d Q
      → RoundTrip (c ▹ d) (λ p. P p.0 × Q p.1)
  unfolding ◌▹◌
  ▹-RoundTrip c d {P} {Q} hc hd = chain-RoundTrip c (λ _. d) P (λ _. Q) hc (λ _. hd)

  pub record_of-RoundTrip :
      (get : B → A) (set : A → B) (c : Codec A) (P : A → Type 0)
      → ((b : B) → set (get b) ≡ b)
      → RoundTrip c P
      → RoundTrip (record_of get set c) (λ b. P (get b))
  unfolding record_of
  record_of-RoundTrip get set c P same hc b p =
      let (bs, w, bytes, r) = hc (get b) p in (bs, w, bytes, λ rest. rw (r rest, same b))

  -- Where the fields only determine the values that fit.
  pub mapped-RoundTrip :
      (get : B → A) (set : A → B) (c : Codec A) (P : A → Type 0) (Q : B → Type 0)
      → ((b : B) → Q b → P (get b) × (set (get b) ≡ b))
      → RoundTrip c P
      → RoundTrip (record_of get set c) Q
  unfolding record_of
  mapped-RoundTrip get set c P Q fits hc b q =
      let (p, same) = fits b q in
      let (bs, w, bytes, r) = hc (get b) p in (bs, w, bytes, λ rest. rw (r rest, same))

module _ {A : Type 0} (c : Codec A) (P : A → Type 0) (hc : RoundTrip c P) where
  pub array-RoundTrip : (n : ℕ) → RoundTrip (array c n) (λ xs. All P xs × (length xs ≡ n))
  unfolding read_times write_each
  array-RoundTrip n [] (h, e) = ([], refl, tt, λ rest. rw (← e))
  array-RoundTrip zero (a ∷ as') (h, e) = absurd (omega arith)
  array-RoundTrip (suc n) (a ∷ as') (h, e) =
      let (xs, wx, bx, rx) = hc a h.0 in
      let (ys, wy, by, ry) = array-RoundTrip n as' (h.1, omega arith) in
      (
        xs ++ ys,
        rw (wx, wy),
        All-append IsByte xs ys bx by,
        λ rest. rw (append_assoc xs ys rest, rx (ys ++ rest), ry rest),
      )

-- A round trip at one value and one rest.
abbrev pub ReadBack : {A : Type 0} → Codec A → A → List ℕ → Type 0
ReadBack c a rest =
    (bs : List ℕ) × (c.to_buffer a ≡ ok bs)
    × All IsByte bs
    × (c.from_buffer (bs ++ rest) ≡ ok (a, rest))

pub RoundTrip-ReadBack :
    {A : Type 0} (c : Codec A) {P : A → Type 0}
    → RoundTrip c P
    → (a : A) (rest : List ℕ) → P a
    → ReadBack c a rest
RoundTrip-ReadBack c hc a rest h = let (bs, w, bytes, r) = hc a h in (bs, w, bytes, r rest)

-- The same with what holds of the number of bytes.
abbrev pub SizedReadBack : {A : Type 0} → (ℕ → Type 0) → Codec A → A → List ℕ → Type 0
SizedReadBack {A} HasSize c a rest =
    (bs : List ℕ) × (c.to_buffer a ≡ ok bs)
    × All IsByte bs
    × HasSize (length bs)
    × (c.from_buffer (bs ++ rest) ≡ ok (a, rest))
