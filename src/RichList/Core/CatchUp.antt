-- ===== src/RichList/Core/CatchUp.antt =====
-- packages/rich-list-core/src/RichListCore.ts: whatever chains the node shows from round to round,
-- the crawled blocks stay a chain; an error stops the crawl for good.
use jellyfishsdk.Prelude.{
  ℕ, ◌≡◌, refl, arith, sym, ap, subst, ◌∙◌, List, [], ◌∷◌, length, All, Option, none, some, true,
  same_text, same_text→eq, Bool-cases, inl, inr, Result, ok, err,
}
use jellyfishsdk.Buffer.Hex.{Text}
use jellyfishsdk.RichList.Database.{put}
use jellyfishsdk.RichList.Core.{
  RpcBlock, Node, Core, Outcome, running, stopped, failed, core_of, none_partition, head,
  next_height, not_best_chain, get_block, get_addresses, crawl, invalidate, follow, advance,
  proceed, catch_up_round, catch_up,
}
use jellyfishsdk.RichList.Core.Rounds.{
  add_addresses_hashes, invalidate_hashes, tip_of, follow-ok, follow-err, advance_same,
  advance_other, catch_up_running, catch_up_stopped, catch_up_failed,
}
use jellyfishsdk.RichList.Core.Tower.{
  Entry, Hashes, IsTower, Holds, Holds-put, Holds-delete, tower_other,
}

module _ (hashes : Hashes) where
  -- The crawled blocks are a tower.
  abbrev pub IsCrawled : Core → Type 0
  IsCrawled core = (t : List Entry) × Holds core.crawled_block_hashes t × IsTower hashes t

  pub next_height_of : (t : List Entry) → IsTower hashes t → next_height (head t) ≡ length t
  next_height_of [] h = refl
  next_height_of (d ∷ t) (s, hs, i, o, st, tower) = omega arith

  pub invalidate-Holds :
      (d : Entry) (t : List Entry) (core : Core)
      → IsTower hashes (d ∷ t)
      → Holds core.crawled_block_hashes (d ∷ t)
      → Holds (invalidate d core).crawled_block_hashes t
  invalidate-Holds d t core (s, hs, i, o, st, tower) h =
      rw (invalidate_hashes d core) (
        Holds-delete core.crawled_block_hashes d t (tower_other hashes d.id t tower (omega arith))
          h)

module _ {Tx : Type 0} (hashes : Hashes) where
  -- A block of the node is at the height asked for, and its hash commits to it.
  pub record IsBlockAt (height : ℕ) (block : RpcBlock Tx) : Type 0 where
    pub same_height : block.height ≡ height
    pub committed : hashes.height_of block.hash ≡ height
    pub linked : hashes.parent_of block.hash ≡ block.previousblockhash

  -- Every block that the node gives is such a block.
  abbrev pub IsNode : Node Tx → Type 0
  IsNode node =
      (height : ℕ) (block : RpcBlock Tx)
      → get_block node height ≡ ok (some block)
      → IsBlockAt height block

  -- The entry of a crawled block.
  abbrev pub entry_of : RpcBlock Tx → Entry
  entry_of block = record {
    partition = none_partition;
    id = block.hash;
    sort = block.height;
    payload = record { height = block.height; hash = block.hash };
  }

  pub crawl_hashes :
      (block : RpcBlock Tx) (addresses : List Text) (core : Core)
      → (crawl block addresses core).crawled_block_hashes
        ≡ put (entry_of block) core.crawled_block_hashes
  unfolding crawl
  crawl_hashes block addresses core =
      ap (put (entry_of block)) (add_addresses_hashes block.height addresses core)

  pub crawl-Holds :
      (block : RpcBlock Tx) (addresses : List Text) (core : Core) (t : List Entry)
      → IsTower hashes (entry_of block ∷ t)
      → Holds core.crawled_block_hashes t
      → Holds (crawl block addresses core).crawled_block_hashes (entry_of block ∷ t)
  crawl-Holds block addresses core t tower h =
      rw (crawl_hashes block addresses core)
        (Holds-put hashes core.crawled_block_hashes (entry_of block) t refl tower h)

  -- A block at the height of the tower, on its tip.
  pub IsTower-next :
      (block : RpcBlock Tx) (t : List Entry)
      → IsBlockAt (length t) block
      → IsTower hashes t
      → not_best_chain (head t) block ≡ none
      → IsTower hashes (entry_of block ∷ t)
  IsTower-next block [] at h best = (at.same_height, at.same_height, refl, at.committed, tt, tt)
  IsTower-next block (d ∷ t) at (s, hs, i, o, st, tower) best = (
    at.same_height,
    at.same_height,
    refl,
    at.committed,
    at.linked ∙ sym (same_text→eq d.payload.hash block.previousblockhash chained) ∙ i,
    (s, hs, i, o, st, tower),
  )
    where
      chained : same_text d.payload.hash block.previousblockhash ≡ true
      chained = elim (Bool-cases (same_text d.payload.hash block.previousblockhash)) [
        | inl t ↦ t
        | inr t ↦ cc (let e = rw t at best in e)
      ]

  follow-IsCrawled :
      (node : Node Tx) (block : RpcBlock Tx) (core : Core) (t : List Entry)
      → IsTower hashes (entry_of block ∷ t)
      → Holds core.crawled_block_hashes t
      → IsTower hashes t
      → IsCrawled hashes (core_of (follow node block core))
  unfolding follow
  follow-IsCrawled node block core t next h tower = go (get_addresses node block.tx) refl
    where
      go :
          (r : Result (List Text))
          → get_addresses node block.tx ≡ r
          → IsCrawled hashes (core_of (follow node block core))
      go (ok addresses) e =
          subst (λ r. IsCrawled hashes (core_of r)) (sym (follow-ok node block core addresses e))
            (entry_of block ∷ t, crawl-Holds block addresses core t next h, next)
      go (err thrown) e =
          subst (λ r. IsCrawled hashes (core_of r)) (sym (follow-err node block core thrown e))
            (t, h, tower)

  advance-IsCrawled :
      (node : Node Tx) (block : RpcBlock Tx) (core : Core) (t : List Entry)
      → IsBlockAt (length t) block
      → Holds core.crawled_block_hashes t
      → IsTower hashes t
      → IsCrawled hashes (core_of (advance node (head t) block core))
  unfolding advance
  advance-IsCrawled node block core [] at h tower =
      follow-IsCrawled node block core [] (IsTower-next block [] at tower refl) h tower
  advance-IsCrawled node block core (d ∷ t) at h (s, hs, i, o, st, tower) =
      elim (Bool-cases (same_text d.payload.hash block.previousblockhash)) [
        | inl e ↦
            subst (λ r. IsCrawled hashes (core_of r)) (sym (advance_same node block core d e))
              (follow-IsCrawled node block core (d ∷ t)
                (IsTower-next block (d ∷ t) at (s, hs, i, o, st, tower) (rw e)) h
                (s, hs, i, o, st, tower))
        | inr e ↦
            subst (λ r. IsCrawled hashes (core_of r)) (sym (advance_other node block core d e))
              (t, invalidate-Holds hashes d t core (s, hs, i, o, st, tower) h, tower)
      ]

  catch_up_round-IsCrawled :
      (node : Node Tx) (core : Core)
      → IsNode node
      → IsCrawled hashes core
      → IsCrawled hashes (core_of (catch_up_round node core))
  unfolding catch_up_round proceed
  catch_up_round-IsCrawled node core honest (t, h, tower) =
      rw (tip_of core t h, next_height_of hashes t tower) (go (get_block node (length t)) refl)
    where
      go :
          (r : Result (Option (RpcBlock Tx)))
          → get_block node (length t) ≡ r
          → IsCrawled hashes (core_of (proceed node (head t) r core))
      go (err thrown) e = (t, h, tower)
      go (ok none) e = (t, h, tower)
      go (ok (some block)) e =
          advance-IsCrawled node block core t (honest (length t) block e) h tower

  -- From a state whose crawled blocks are a chain from height 0 on, one block at each height, each
  -- on the one below, a catch-up leaves such a state, whatever chain the node shows in each round,
  -- and also where it fails. It assumes that the node gives blocks at the height asked for, and that
  -- a hash determines the height and the previous hash of its block.
  pub catch_up-IsCrawled :
      (nodes : List (Node Tx)) (core : Core)
      → All IsNode nodes
      → IsCrawled hashes core
      → IsCrawled hashes (core_of (catch_up nodes core))
  unfolding catch_up
  catch_up-IsCrawled [] core honest h = h
  catch_up-IsCrawled (node ∷ nodes) core (n, ns) h =
      go (catch_up_round node core) refl (catch_up_round-IsCrawled node core n h)
        (λ core'. catch_up-IsCrawled nodes core' ns)
    where
      go :
          (r : Outcome)
          → catch_up_round node core ≡ r
          → IsCrawled hashes (core_of r)
          → ((core' : Core)
              → IsCrawled hashes core'
              → IsCrawled hashes (core_of (catch_up nodes core')))
          → IsCrawled hashes (core_of (catch_up (node ∷ nodes) core))
      go (running core') e k more =
          subst (λ r. IsCrawled hashes (core_of r)) (sym (catch_up_running node nodes core core' e))
            (more core' k)
      go (stopped core') e k more =
          subst (λ r. IsCrawled hashes (core_of r)) (sym (catch_up_stopped node nodes core core' e))
            k
      go (failed thrown core') e k more =
          subst (λ r. IsCrawled hashes (core_of r))
            (sym (catch_up_failed node nodes core core' thrown e)) k
