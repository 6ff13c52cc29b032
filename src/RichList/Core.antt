-- ===== src/RichList/Core.antt =====
-- packages/rich-list-core/src/RichListCore.ts: the crawl over the blocks of a node, which steps back
-- where the chain of the node is another one.
pub mod Tower
pub mod Rounds
pub mod CatchUp
pub mod Reaches
pub mod Errors
use jellyfishsdk.Prelude.{
  ℕ, zero, suc, ◌+◌, ◌/◌, ◌%◌, List, [], ◌∷◌, ◌++◌, Option, none, some, Bool, true, false, not,
  ◌&&◌, ◌==◌, if◌then◌else◌, same_text, Error, height_out_of_range, Result, ok, err, ◌>>=◌,
}
use jellyfishsdk.Prelude.Decimal.{decimal}
use jellyfishsdk.Buffer.Hex.{Text}
use jellyfishsdk.Buffer.CompactSize.{max_safe_integer}
use jellyfishsdk.RichList.Queue.{push}
use jellyfishsdk.RichList.Database.{Schema, Database, FindOptions, desc, put, delete, list}

-- What the crawl reads of a block of the node.
pub record RpcBlock (Tx : Type 0) : Type 0 where
  pub hash : Text
  pub height : ℕ
  pub previousblockhash : Text
  pub tx : List Tx

pub record CrawledBlock : Type 0 where
  pub height : ℕ
  pub hash : Text

-- The node as one round finds it: `blockchain.getBlockHash` and `blockchain.getBlock`, and the
-- addresses that `AddressParser.parse` finds in a transaction.
pub record Node (Tx : Type 0) : Type 0 where
  pub get_block_hash : ℕ → Result Text
  pub get_block : Text → Result (RpcBlock Tx)
  pub parse : Tx → Result (List Text)

pub record Core : Type 0 where
  pub is_catching_up : Bool
  pub crawled_block_hashes : Database CrawledBlock
  pub crawled_block_addresses : Database Text
  pub queue : List Text

-- 'NONE'
abbrev pub none_partition : Text
none_partition = b'N' ∷ b'O' ∷ b'N' ∷ b'E' ∷ []

-- `${height}-${address}`
abbrev pub address_id : ℕ → Text → Text
address_id height a = decimal height ++ (b'-' ∷ a)

abbrev pub head : {A : Type 0} → List A → Option A
head [] = none
head (x ∷ xs) = some x

unfoldable pub get_crawled_tip : Core → Option (Schema CrawledBlock)
get_crawled_tip core = head (
    list (record { partition = none_partition; order = desc; limit = 1; gt = none; lt = none })
      core.crawled_block_hashes)

unfoldable pub get_crawled_block_addresses : ℕ → Core → List (Schema Text)
get_crawled_block_addresses height core =
    list
      (record {
        partition = decimal height;
        order = desc;
        limit = max_safe_integer;
        gt = none;
        lt = none;
      })
      core.crawled_block_addresses

unfoldable pub requeue : List (Schema Text) → Core → Core
requeue [] core = core
requeue (a ∷ rest) core = requeue rest (record core {
  queue = push a.payload core.queue;
  crawled_block_addresses = delete a.id core.crawled_block_addresses;
})

unfoldable pub invalidate : Schema CrawledBlock → Core → Core
invalidate block core =
    let dropped = record core {
      crawled_block_hashes = delete block.id core.crawled_block_hashes;
    } in
    if block.payload.height == 0
    then dropped
    else requeue (get_crawled_block_addresses block.payload.height dropped) dropped

unfoldable pub add_addresses : ℕ → List Text → Core → Core
add_addresses height [] core = core
add_addresses height (a ∷ rest) core = add_addresses height rest (record core {
  queue = push a core.queue;
  crawled_block_addresses =
      put
        (record {
          partition = decimal height;
          sort = height;
          id = address_id height a;
          payload = a;
        })
        core.crawled_block_addresses;
})

abbrev pub next_height : Option (Schema CrawledBlock) → ℕ
next_height none = 0
next_height (some last) = last.payload.height + 1

module _ {Tx : Type 0} where
  unfoldable pub get_addresses : Node Tx → List Tx → Result (List Text)
  get_addresses node [] = ok []
  get_addresses node (tx ∷ rest) = do
    found ← node.parse tx
    more ← get_addresses node rest
    ok (found ++ more)

  -- The handler of `getBlock`: a height out of range is no block, and any other error is thrown.
  unfoldable pub or_undefined : Result (RpcBlock Tx) → Result (Option (RpcBlock Tx))
  or_undefined (ok block) = ok (some block)
  or_undefined (err height_out_of_range) = ok none
  or_undefined (err e) = err e

  unfoldable pub get_block : Node Tx → ℕ → Result (Option (RpcBlock Tx))
  get_block node height = or_undefined (do bh ← node.get_block_hash height; node.get_block bh)

  unfoldable pub crawl : RpcBlock Tx → List Text → Core → Core
  crawl block addresses core =
      let added = add_addresses block.height addresses core in
      record added {
        crawled_block_hashes =
            put
              (record {
                partition = none_partition;
                id = block.hash;
                sort = block.height;
                payload = record { height = block.height; hash = block.hash };
              })
              added.crawled_block_hashes;
      }

  -- A block that was crawled last and is not the one before the next block.
  abbrev pub not_best_chain :
      Option (Schema CrawledBlock) → RpcBlock Tx → Option (Schema CrawledBlock)
  not_best_chain none next = none
  not_best_chain (some last) next =
      if same_text last.payload.hash next.previousblockhash then none else some last

-- What a call of `catchUp` comes to, with the state it leaves.
pub data Outcome : Type 0 where
  running stopped : Core → Outcome
  failed : Error → Core → Outcome

abbrev pub core_of : Outcome → Core
core_of (running core) = core
core_of (stopped core) = core
core_of (failed e core) = core

module _ {Tx : Type 0} where
  -- The addresses of the next block are read before anything is changed.
  unfoldable pub follow : Node Tx → RpcBlock Tx → Core → Outcome
  follow node next core = elim (get_addresses node next.tx) [
    | ok addresses ↦ running (crawl next addresses core)
    | err e ↦ failed e core
  ]

  unfoldable pub advance : Node Tx → Option (Schema CrawledBlock) → RpcBlock Tx → Core → Outcome
  advance node last next core = elim (not_best_chain last next) [
    | some block ↦ running (invalidate block core)
    | none ↦ follow node next core
  ]

  unfoldable pub proceed :
      Node Tx → Option (Schema CrawledBlock) → Result (Option (RpcBlock Tx)) → Core → Outcome
  proceed node last (err e) core = failed e core
  proceed node last (ok none) core = stopped (record core { is_catching_up = false })
  proceed node last (ok (some next)) core = advance node last next core

  -- `catchUp` up to the call of itself at its end.
  unfoldable pub catch_up_round : Node Tx → Core → Outcome
  catch_up_round node core =
      let last_block = get_crawled_tip core in
      proceed node last_block (get_block node (next_height last_block)) core

  -- The rounds, each with the node as it finds it.
  unfoldable pub catch_up : List (Node Tx) → Core → Outcome
  catch_up [] core = running core
  catch_up (node ∷ nodes) core = elim (catch_up_round node core) [
    | running core' ↦ catch_up nodes core'
    | stopped core' ↦ stopped core'
    | failed e core' ↦ failed e core'
  ]

  -- `start` does not wait for `catchUp`: an error that it throws is lost.
  unfoldable pub start : List (Node Tx) → Core → Core
  start nodes core =
      if core.is_catching_up
      then core
      else core_of (catch_up nodes (record core { is_catching_up = true }))
