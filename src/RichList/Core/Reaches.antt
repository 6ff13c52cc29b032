-- ===== src/RichList/Core/Reaches.antt =====
-- packages/rich-list-core/src/RichListCore.ts: while the node keeps its chain, a catch-up ends with
-- the blocks of that chain, and steps back from another one first.
use jellyfishsdk.Prelude.{
  ℕ, zero, suc, ◌+◌, ◌-◌, ◌≤◌, ◌<◌, ◌≡◌, refl, arith, sym, ap, ◌∙◌, List, [], ◌∷◌, length, map,
  none, some, true, false, ltb, same_text, same_text_refl, same_text→eq, Bool-cases, inl, inr, ok,
}
use jellyfishsdk.Buffer.Hex.{Text}
use jellyfishsdk.RichList.Core.{
  RpcBlock, Node, Core, running, stopped, head, get_block, get_addresses, crawl, invalidate,
  advance, proceed, catch_up_round, catch_up,
}
use jellyfishsdk.RichList.Core.Rounds.{
  tip_of, follow-ok, advance_same, advance_other, catch_up_running, catch_up_stopped,
}
use jellyfishsdk.RichList.Core.Tower.{Entry, Hashes, IsTower, Holds}
use jellyfishsdk.RichList.Core.CatchUp.{
  IsBlockAt, entry_of, crawl-Holds, invalidate-Holds, IsTower-next, next_height_of,
}

abbrev pub replicate : {A : Type 0} → ℕ → A → List A
replicate zero x = []
replicate (suc n) x = x ∷ replicate n x

abbrev pub ids : List Entry → List Text
ids t = map (λ d. d.id) t

first : {x y : Text} {xs ys : List Text} → x ∷ xs ≡ y ∷ ys → x ≡ y
first e = cc

tip_matches :
    {Tx : Type 0} (block : RpcBlock Tx) (d : Entry) {hash : Text}
    → d.payload.hash ≡ hash
    → block.previousblockhash ≡ hash
    → same_text d.payload.hash block.previousblockhash ≡ true
tip_matches block d {hash} e f = rw (e, f) (same_text_refl hash)

module _ {Tx : Type 0} (hashes : Hashes) (node : Node Tx) (n : ℕ) (blocks : ℕ → RpcBlock Tx) where
  -- The node has the first `n` of a sequence of blocks, each on the one before it, and their
  -- addresses are found.
  pub record IsChain : Type 0 where
    pub inside : (h : ℕ) → h < n → get_block node h ≡ ok (some (blocks h))
    pub outside : get_block node n ≡ ok none
    pub block_at : (h : ℕ) → IsBlockAt hashes h (blocks h)
    pub chained : (h : ℕ) → (blocks (suc h)).previousblockhash ≡ (blocks h).hash
    pub addresses : ℕ → List Text
    pub parsed : (h : ℕ) → h < n → get_addresses node (blocks h).tx ≡ ok (addresses h)

  -- The hashes of the first blocks, the highest one first.
  abbrev pub chain_hashes : ℕ → List Text
  chain_hashes zero = []
  chain_hashes (suc h) = (blocks h).hash ∷ chain_hashes h

  -- A tip of the chain stands on blocks of the chain.
  tower_agrees :
      (c : IsChain) (d : Entry) (t : List Entry)
      → IsTower hashes (d ∷ t)
      → d.id ≡ (blocks (length t)).hash
      → ids (d ∷ t) ≡ chain_hashes (suc (length t))
  tower_agrees c d [] tower e = rw e
  tower_agrees c d (below ∷ t) (s, hs, i, o, st, tower) e =
      let at = c.block_at (suc (length t)) in
      let same : below.id ≡ (blocks (length t)).hash =
        sym st ∙ ap hashes.parent_of e ∙ at.linked ∙ c.chained (length t) in
      rw (e, tower_agrees c below t tower same)

  round_at :
      (core : Core) (t : List Entry)
      → IsTower hashes t
      → Holds core.crawled_block_hashes t
      → catch_up_round node core ≡ proceed node (head t) (get_block node (length t)) core
  unfolding catch_up_round
  round_at core t tower h = rw (tip_of core t h, next_height_of hashes t tower)

  -- Where the catch-up ends.
  abbrev pub Reaches : ℕ → Core → Type 0
  Reaches rounds core =
      (core' : Core) × (t : List Entry) × (catch_up (replicate rounds node) core ≡ stopped core')
      × (core'.is_catching_up ≡ false)
      × Holds core'.crawled_block_hashes t
      × (ids t ≡ chain_hashes n)

  Reaches-running :
      (rounds : ℕ) (core core' : Core)
      → catch_up_round node core ≡ running core'
      → Reaches rounds core'
      → Reaches (suc rounds) core
  Reaches-running rounds core core' e (last, t, r, off, h, same) =
      (last, t, catch_up_running node (replicate rounds node) core core' e ∙ r, off, h, same)

  advance_on :
      (c : IsChain) (core : Core) (t : List Entry)
      → length t < n
      → IsTower hashes t
      → ids t ≡ chain_hashes (length t)
      → advance node (head t) (blocks (length t)) core
        ≡ running (crawl (blocks (length t)) (c.addresses (length t)) core)
  unfolding advance
  advance_on c core [] lt tower e = follow-ok node (blocks 0) core (c.addresses 0) (c.parsed 0 lt)
  advance_on c core (d ∷ t) lt (s, hs, i, o, st, tower) e =
      advance_same node (blocks (suc (length t))) core d
        (tip_matches (blocks (suc (length t))) d (i ∙ first e) (c.chained (length t)))
      ∙ follow-ok node (blocks (suc (length t))) core (c.addresses (suc (length t))) (c.parsed _ lt)

  round_inside :
      (c : IsChain) (core : Core) (t : List Entry)
      → length t < n
      → IsTower hashes t
      → Holds core.crawled_block_hashes t
      → catch_up_round node core ≡ advance node (head t) (blocks (length t)) core
  unfolding proceed
  round_inside c core t lt tower h =
      round_at core t tower h ∙ ap (λ r. proceed node (head t) r core) (c.inside (length t) lt)

  round_on :
      (c : IsChain) (core : Core) (t : List Entry)
      → length t < n
      → IsTower hashes t
      → ids t ≡ chain_hashes (length t)
      → Holds core.crawled_block_hashes t
      → catch_up_round node core ≡ running (crawl (blocks (length t)) (c.addresses (length t)) core)
  round_on c core t lt tower agree h =
      round_inside c core t lt tower h ∙ advance_on c core t lt tower agree

  round_end :
      (c : IsChain) (core : Core) (t : List Entry)
      → length t ≡ n
      → IsTower hashes t
      → Holds core.crawled_block_hashes t
      → catch_up_round node core ≡ stopped (record core { is_catching_up = false })
  unfolding proceed
  round_end c core t e tower h =
      round_at core t tower h
      ∙ ap (λ r. proceed node (head t) r core) (ap (get_block node) e ∙ c.outside)

  next-IsTower :
      (c : IsChain) (t : List Entry)
      → IsTower hashes t
      → ids t ≡ chain_hashes (length t)
      → IsTower hashes (entry_of hashes (blocks (length t)) ∷ t)
  next-IsTower c [] tower e = IsTower-next hashes (blocks 0) [] (c.block_at 0) tower refl
  next-IsTower c (d ∷ t) (s, hs, i, o, st, tower) e =
      IsTower-next hashes (blocks (suc (length t))) (d ∷ t) (c.block_at (suc (length t)))
        (s, hs, i, o, st, tower)
        (rw (tip_matches (blocks (suc (length t))) d (i ∙ first e) (c.chained (length t))))

  -- From blocks of the chain upwards.
  up :
      (c : IsChain) (rounds : ℕ) (core : Core) (t : List Entry)
      → length t ≤ n
      → n - length t < rounds
      → IsTower hashes t
      → ids t ≡ chain_hashes (length t)
      → Holds core.crawled_block_hashes t
      → Reaches rounds core
  up c zero core t le enough tower agree h = absurd (omega arith)
  up c (suc rounds) core t le enough tower agree h = elim (Bool-cases (ltb (length t) n)) [
    | inl more ↦
        let block = blocks (length t) in
        let crawled = crawl block (c.addresses (length t)) core in
        let next = next-IsTower c t tower agree in
        Reaches-running rounds core crawled (round_on c core t (ground arith) tower agree h) (
          up c rounds crawled (entry_of hashes block ∷ t) (ground arith) (ground arith) next
            (ap (λ xs. block.hash ∷ xs) agree)
            (crawl-Holds hashes block (c.addresses (length t)) core t next h))
    | inr done ↦
        let all : length t ≡ n = ground arith in
        (
          record core { is_catching_up = false },
          t,
          catch_up_stopped node (replicate rounds node) core _ (round_end c core t all tower h),
          refl,
          h,
          rw (← all) agree,
        )
  ]

  -- From another chain downwards, as far as the node has left it.
  down :
      (c : IsChain) (rounds : ℕ) (core : Core) (t : List Entry)
      → length t < n
      → length t + n < rounds
      → IsTower hashes t
      → Holds core.crawled_block_hashes t
      → Reaches rounds core
  down c zero core t lt enough tower h = absurd (omega arith)
  down c (suc rounds) core [] lt enough tower h =
      up c (suc rounds) core [] (omega arith) (omega arith) tower refl h
  down c (suc rounds) core (d ∷ t) lt enough (s, hs, i, o, st, tower) h =
      let block = blocks (suc (length t)) in
      let whole : IsTower hashes (d ∷ t) = (s, hs, i, o, st, tower) in
      elim (Bool-cases (same_text d.payload.hash block.previousblockhash)) [
        | inl e ↦
            let tip = sym i ∙ same_text→eq d.payload.hash block.previousblockhash e in
            up c (suc rounds) core (d ∷ t) (omega arith) (omega arith) whole
              (tower_agrees c d t whole (tip ∙ c.chained (length t))) h
        | inr e ↦
            Reaches-running rounds core (invalidate d core)
              (round_inside c core (d ∷ t) lt whole h ∙ advance_other node block core d e)
              (down c rounds (invalidate d core) t (omega arith) (omega arith) tower
                (invalidate-Holds hashes d t core whole h))
      ]

  -- A node keeps a chain of `n` blocks, and finds the addresses of each. From crawled blocks that
  -- are any other chain from height 0 on with fewer blocks, the catch-up stops within as many rounds
  -- as both have blocks, and one, ready to be started again, and the crawled blocks are then those
  -- of the chain of the node, by their hashes.
  pub catch_up-Reaches :
      (core : Core) (t : List Entry) (rounds : ℕ)
      → IsChain
      → Holds core.crawled_block_hashes t
      → IsTower hashes t
      → length t < n
      → length t + n < rounds
      → Reaches rounds core
  catch_up-Reaches core t rounds c h tower lt enough = down c rounds core t lt enough tower h
