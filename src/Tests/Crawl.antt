-- ===== src/Tests/Crawl.antt =====
-- packages/rich-list-core/src/RichListCore.ts: a crawl over a chain that replaces another one.
use jellyfishsdk.Prelude.{
  ℕ, zero, suc, ◌<◌, ◌≤◌, subst, Bool-cases, inl, inr, ◌≡◌, refl, arith, List, [], ◌∷◌, true, false,
  ltb, if◌then◌else◌, some, none, Result, ok, err, height_out_of_range, call_failed, le→ltb, lt→ltb,
}
use jellyfishsdk.Buffer.Hex.{Text}
use jellyfishsdk.RichList.Core.{
  RpcBlock, Node, Core, failed, core_of, none_partition, get_block, or_undefined, get_addresses,
  catch_up, catch_up_round, proceed, start,
}
use jellyfishsdk.RichList.Core.Tower.{Entry, Hashes, IsTower}
use jellyfishsdk.RichList.Core.CatchUp.{IsBlockAt, IsNode, IsCrawled, catch_up-IsCrawled}
use jellyfishsdk.RichList.Core.Reaches.{IsChain, Reaches, catch_up-Reaches}
use jellyfishsdk.RichList.Core.Errors.{start_failed}

-- A hash is its height with the name of its chain in front. The chains part behind height 0.
abbrev hash_at : ℕ → ℕ → Text
hash_at chain zero = 0 ∷ 0 ∷ []
hash_at chain (suc h) = chain ∷ suc h ∷ []

abbrev previous_at : ℕ → ℕ → Text
previous_at chain zero = []
previous_at chain (suc h) = hash_at chain h

abbrev hashes : Hashes
hashes = record { height_of = height_of; parent_of = parent_of }
  where
    height_of : Text → ℕ
    height_of (chain ∷ h ∷ rest) = h
    height_of (chain ∷ []) = 0
    height_of [] = 0

    parent_of : Text → Text
    parent_of (chain ∷ h ∷ rest) = previous_at chain h
    parent_of (chain ∷ []) = []
    parent_of [] = []

abbrev block_at : ℕ → ℕ → RpcBlock (Unit {0})
block_at chain h = record {
  hash = hash_at chain h;
  height = h;
  previousblockhash = previous_at chain h;
  tx = [];
}

-- A node with the first `n` blocks of a chain.
abbrev node : ℕ → ℕ → Node (Unit {0})
node chain n = record {
  get_block_hash = λ h. if ltb h n then ok (hash_at chain h) else err height_out_of_range;
  get_block = by_hash chain;
  parse = λ tx. ok [];
}
  where
    by_hash : ℕ → Text → Result (RpcBlock (Unit {0}))
    by_hash chain (c ∷ h ∷ []) = ok (block_at chain h)
    by_hash chain hash = err call_failed

block_at-IsBlockAt : (chain h : ℕ) → IsBlockAt hashes h (block_at chain h)
block_at-IsBlockAt chain zero = record { same_height = refl; committed = refl; linked = refl }
block_at-IsBlockAt chain (suc h) = record { same_height = refl; committed = refl; linked = refl }

block_inside : (chain n h : ℕ) → h < n → get_block (node chain n) h ≡ ok (some (block_at chain h))
unfolding get_block or_undefined
block_inside chain n zero lt = rw (lt→ltb 0 n lt)
block_inside chain n (suc h) lt = rw (lt→ltb (suc h) n lt)

block_outside : (chain n h : ℕ) → n ≤ h → get_block (node chain n) h ≡ ok none
unfolding get_block or_undefined
block_outside chain n h le = rw (le→ltb h n le)

node-IsNode : (chain n : ℕ) → IsNode hashes (node chain n)
node-IsNode chain n h block e = elim (Bool-cases (ltb h n)) [
  | inl t ↦
      let same : block_at chain h ≡ block = cc (block_inside chain n h (ground arith)) in
      subst (IsBlockAt hashes h) same (block_at-IsBlockAt chain h)
  | inr t ↦ cc (block_outside chain n h (ground arith))
]

node-IsChain : (chain n : ℕ) → IsChain hashes (node chain n) n (block_at chain)
unfolding get_addresses
node-IsChain chain n = record {
  inside = block_inside chain n;
  outside = block_outside chain n n (omega arith);
  block_at = block_at-IsBlockAt chain;
  chained = λ h. refl;
  addresses = λ h. [];
  parsed = λ h lt. refl;
}

abbrev crawled : ℕ → ℕ → Entry
crawled chain h = record {
  id = hash_at chain h;
  partition = none_partition;
  sort = h;
  payload = record { height = h; hash = hash_at chain h };
}

-- Two blocks of chain 1 were crawled.
abbrev forked : Core
forked = record {
  is_catching_up = false;
  crawled_block_hashes = (none_partition, crawled 1 0 ∷ crawled 1 1 ∷ []) ∷ [];
  crawled_block_addresses = [];
  queue = [];
}

abbrev fork : List Entry
fork = crawled 1 1 ∷ crawled 1 0 ∷ []

fork-IsTower : IsTower hashes fork
fork-IsTower = (refl, refl, refl, refl, refl, (refl, refl, refl, refl, tt, tt))

-- The node has changed to chain 2, and has three blocks of it.
catch_up-Reaches_example : Reaches hashes (node 2 3) 3 (block_at 2) 6 forked
catch_up-Reaches_example =
    catch_up-Reaches hashes (node 2 3) 3 (block_at 2) forked fork 6 (node-IsChain 2 3) (refl, refl)
      fork-IsTower (omega arith) (omega arith)

-- The chain changes after each round.
catch_up-IsCrawled_example :
    IsCrawled hashes (core_of (catch_up (node 2 3 ∷ node 1 4 ∷ node 2 5 ∷ []) forked))
catch_up-IsCrawled_example =
    catch_up-IsCrawled hashes (node 2 3 ∷ node 1 4 ∷ node 2 5 ∷ []) forked
      (node-IsNode 2 3, (node-IsNode 1 4, (node-IsNode 2 5, tt))) (fork, (refl, refl), fork-IsTower)

-- A node that is down.
abbrev no_node : Node (Unit {0})
no_node = record {
  get_block_hash = λ h. err call_failed;
  get_block = λ hash. err call_failed;
  parse = λ tx. err call_failed;
}

no_node_fails :
    catch_up (no_node ∷ []) (record forked { is_catching_up = true })
    ≡ failed call_failed (record forked { is_catching_up = true })
unfolding catch_up catch_up_round get_block or_undefined proceed
no_node_fails = refl

start_failed_example :
    start (node 1 9 ∷ []) (start (no_node ∷ []) forked) ≡ start (no_node ∷ []) forked
start_failed_example =
    start_failed (no_node ∷ []) (node 1 9 ∷ []) forked (record forked { is_catching_up = true })
      call_failed refl no_node_fails
