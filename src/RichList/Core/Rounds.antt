-- ===== src/RichList/Core/Rounds.antt =====
-- packages/rich-list-core/src/RichListCore.ts: what the parts of a round come to on each branch.
use jellyfishsdk.Prelude.{
  ℕ, ◌≡◌, refl, ap, ◌∙◌, List, [], ◌∷◌, some, true, false, same_text, Bool-cases, inl, inr, take,
  ok, err, Error, ◌==◌,
}
use jellyfishsdk.Buffer.Hex.{Text}
use jellyfishsdk.RichList.Database.{Schema, delete}
use jellyfishsdk.RichList.Core.{
  RpcBlock, Node, Core, running, stopped, failed, get_crawled_tip, head, get_addresses,
  add_addresses, crawl, requeue, invalidate, follow, advance, catch_up_round, catch_up,
}
use jellyfishsdk.RichList.Core.Tower.{Entry, Holds, list_tip-Holds}

pub add_addresses_hashes :
    (height : ℕ) (addresses : List Text) (core : Core)
    → (add_addresses height addresses core).crawled_block_hashes ≡ core.crawled_block_hashes
unfolding add_addresses
add_addresses_hashes height [] core = refl
add_addresses_hashes height (a ∷ rest) core = add_addresses_hashes height rest _

requeue_hashes :
    (entries : List (Schema Text)) (core : Core)
    → (requeue entries core).crawled_block_hashes ≡ core.crawled_block_hashes
unfolding requeue
requeue_hashes [] core = refl
requeue_hashes (a ∷ rest) core = requeue_hashes rest _

pub invalidate_hashes :
    (block : Entry) (core : Core)
    → (invalidate block core).crawled_block_hashes ≡ delete block.id core.crawled_block_hashes
unfolding invalidate
invalidate_hashes block core = elim (Bool-cases (block.payload.height == 0)) [
  | inl t ↦ rw t
  | inr t ↦ rw t (requeue_hashes _ _)
]

pub tip_of :
    (core : Core) (t : List Entry)
    → Holds core.crawled_block_hashes t
    → get_crawled_tip core ≡ head t
unfolding get_crawled_tip
tip_of core t h = ap head (list_tip-Holds 1 core.crawled_block_hashes t h) ∙ first t
  where
    first : (t : List Entry) → head (take 1 t) ≡ head t
    first [] = refl
    first (d ∷ t) = refl

module _ {Tx : Type 0} where
  pub follow-ok :
      (node : Node Tx) (block : RpcBlock Tx) (core : Core) (addresses : List Text)
      → get_addresses node block.tx ≡ ok addresses
      → follow node block core ≡ running (crawl block addresses core)
  unfolding follow
  follow-ok node block core addresses e = rw (e, follow)

  pub follow-err :
      (node : Node Tx) (block : RpcBlock Tx) (core : Core) (thrown : Error)
      → get_addresses node block.tx ≡ err thrown
      → follow node block core ≡ failed thrown core
  unfolding follow
  follow-err node block core thrown e = rw (e, follow)

  pub advance_same :
      (node : Node Tx) (block : RpcBlock Tx) (core : Core) (d : Entry)
      → same_text d.payload.hash block.previousblockhash ≡ true
      → advance node (some d) block core ≡ follow node block core
  unfolding advance
  advance_same node block core d e = rw (e, advance)

  pub advance_other :
      (node : Node Tx) (block : RpcBlock Tx) (core : Core) (d : Entry)
      → same_text d.payload.hash block.previousblockhash ≡ false
      → advance node (some d) block core ≡ running (invalidate d core)
  unfolding advance
  advance_other node block core d e = rw (e, advance)

  pub catch_up_running :
      (node : Node Tx) (nodes : List (Node Tx)) (core core' : Core)
      → catch_up_round node core ≡ running core'
      → catch_up (node ∷ nodes) core ≡ catch_up nodes core'
  unfolding catch_up
  catch_up_running node nodes core core' e = rw (e, catch_up)

  pub catch_up_stopped :
      (node : Node Tx) (nodes : List (Node Tx)) (core core' : Core)
      → catch_up_round node core ≡ stopped core'
      → catch_up (node ∷ nodes) core ≡ stopped core'
  unfolding catch_up
  catch_up_stopped node nodes core core' e = rw (e, catch_up)

  pub catch_up_failed :
      (node : Node Tx) (nodes : List (Node Tx)) (core core' : Core) (thrown : Error)
      → catch_up_round node core ≡ failed thrown core'
      → catch_up (node ∷ nodes) core ≡ failed thrown core'
  unfolding catch_up
  catch_up_failed node nodes core core' thrown e = rw (e, catch_up)
