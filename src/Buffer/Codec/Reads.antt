-- ===== src/Buffer/Codec/Reads.antt =====
-- packages/jellyfish-buffer/src/Composer.ts: what a successful read has read.
use jellyfishsdk.Prelude.{ℕ, ◌≡◌, ap, ◌∙◌, subst, List, Result, ok, err, ◌>>=◌, >>=-eq-ok}
use jellyfishsdk.Buffer.Codec.{Codec, chain, ◌▹◌, record_of}

value_or : {A : Type 0} → A → Result A → A
value_or a (ok b) = b
value_or a (err e) = a

-- What two successful results return is the same.
pub ok-injective : {A : Type 0} {a b : A} → ok a ≡ ok b → a ≡ b
unfolding value_or
ok-injective {a = a} e = ap (value_or a) e

module _ {A B : Type 0} where
  pub chain-reads :
      (c : Codec A) (d : A → Codec B) (bs rest : List ℕ) (a : A) (b : B)
      → (chain c d).from_buffer bs ≡ ok ((a, b), rest)
      → (mid : List ℕ) × (c.from_buffer bs ≡ ok (a, mid)) × ((d a).from_buffer mid ≡ ok (b, rest))
  unfolding chain
  chain-reads c d bs rest a b e =
      let ((a', mid), e1, e2) =
        >>=-eq-ok (c.from_buffer bs) (λ p. (d p.0).from_buffer p.1 >>= λ q. ok ((p.0, q.0), q.1))
          e in
      let ((b', rest'), e3, e4) =
        >>=-eq-ok ((d a').from_buffer mid) (λ q. ok ((a', q.0), q.1)) e2 in
      let same = ok-injective e4 in
      (
        mid,
        e1 ∙ ap (λ p. ok (p.0.0, mid)) same,
        subst (λ p. (d p.0.0).from_buffer mid ≡ ok (p.0.1, p.1)) same e3,
      )

  pub record_of-reads :
      (get : B → A) (set : A → B) (c : Codec A) (bs rest : List ℕ) (b : B)
      → (record_of get set c).from_buffer bs ≡ ok (b, rest)
      → (a : A) × (c.from_buffer bs ≡ ok (a, rest)) × (set a ≡ b)
  unfolding record_of
  record_of-reads get set c bs rest b e =
      let ((a, mid), e1, e2) = >>=-eq-ok (c.from_buffer bs) (λ p. ok (set p.0, p.1)) e in
      let same = ok-injective e2 in (a, e1 ∙ ap (λ p. ok (a, p.1)) same, ap (λ p. p.0) same)

-- The first two fields of a class, where the first decides how those behind the second are read.
module _ {A B C T : Type 0} where
  pub front-reads :
      (c : Codec T) (first : Codec A) (second : Codec B) (get : T → A × (B × C))
      (set : A × (B × C) → T) (others : A → Codec C) (bs rest : List ℕ) (t : T)
      → c ≡ record_of get set (chain first (λ a. second ▹ others a))
      → c.from_buffer bs ≡ ok (t, rest)
      → (f : A × (B × C)) × (r1 : List ℕ) × (r2 : List ℕ) × (first.from_buffer bs ≡ ok (f.0, r1))
        × (second.from_buffer r1 ≡ ok (f.1.0, r2))
        × (set f ≡ t)
  unfolding ◌▹◌
  front-reads c first second get set others bs rest t same e =
      let (f, e1, made) =
        record_of-reads get set (chain first (λ a. second ▹ others a)) bs rest t
          (subst (λ d. d.from_buffer bs ≡ ok (t, rest)) same e) in
      let (r1, v, e2) = chain-reads first (λ a. second ▹ others a) bs rest f.0 f.1 e1 in
      let (r2, m, e3) = chain-reads second (λ _. others f.0) r1 rest f.1.0 f.1.1 e2 in
      (f, r1, r2, v, m, made)
