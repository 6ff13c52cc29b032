-- ===== src/Tests/Indexer.antt =====
-- apps/whale-api/src/module.indexer: an index that fails half way, and its cleanup in the next round.
use jellyfishsdk.Prelude.{
  not_found, ℕ, zero, ◌-◌, suc, ◌≡◌, refl, List, [], ◌∷◌, Option, none, some, ok, err, Error,
  call_failed,
}
use jellyfishsdk.WhaleApi.Indexer.{
  reindex, RawBlock, Run, done, thrown, Indexer, Stored, RpcClient, index_all, invalidate_all,
  main_index, main_invalidate, index, invalidate, cleanup, index_genesis, follow_chain, after_hash,
  synchronize, cycle_round, failed, invalidated, error,
}
use jellyfishsdk.WhaleApi.Indexer.Recovery.{IsClean, IsAtRest}
use jellyfishsdk.WhaleApi.Indexer.Steps.{Reach, at_start, after, whole_round, empty_database}
use jellyfishsdk.WhaleApi.Indexer.Reach.{Reach-cleanup}

abbrev raw_block : ℕ → RawBlock
raw_block h = record { hash = b'b' ∷ h ∷ []; height = h; previousblockhash = b'b' ∷ (h - 1) ∷ [] }

-- The models are the blocks that are indexed, the highest one first.
abbrev tail : List RawBlock → List RawBlock
tail [] = []
tail (block ∷ rest) = rest

abbrev highest : List RawBlock → Option RawBlock
highest [] = none
highest (block ∷ rest) = some block

abbrev block_indexer : Indexer (List RawBlock)
block_indexer = record {
  index = λ block x. done (block ∷ x);
  invalidate = λ block x. done (tail x);
}

-- It fails at the block of height 1.
abbrev index_but_first : ℕ → List RawBlock → Run (List RawBlock)
index_but_first (suc zero) x = thrown call_failed x
index_but_first h x = done x

abbrev failing_indexer : Indexer (List RawBlock)
failing_indexer = record {
  index = λ block x. index_but_first block.height x;
  invalidate = λ block x. done x;
}

abbrev indexers : List (Indexer (List RawBlock))
indexers = block_indexer ∷ failing_indexer ∷ []

abbrev client : RpcClient
client = record {
  get_block_hash = λ h. ok (b'b' ∷ h ∷ []);
  get_block = λ hash. elim hash [
    | [] ↦ err call_failed
    | c ∷ rest ↦ (elim rest [ [] ↦ err call_failed | h ∷ more ↦ ok (raw_block h) ])
  ];
}

abbrev NoCrash : RawBlock → List RawBlock → List RawBlock → Type 0
NoCrash block x y = ⊥

abbrev round : Stored (List RawBlock) → Stored (List RawBlock)
round db = (cycle_round indexers highest client db).1

abbrev after_genesis : Stored (List RawBlock)
after_genesis = round (empty_database [])

abbrev failed_index : Stored (List RawBlock)
failed_index = round after_genesis

failed_index_runs :
    (failed_index.models ≡ raw_block 1 ∷ raw_block 0 ∷ [])
    × (failed_index.status ≡ some (record { hash = b'b' ∷ 1 ∷ []; height = 1; status = error }))
unfolding cycle_round cleanup synchronize index_genesis after_hash follow_chain index main_index
    index_all
failed_index_runs = (refl, refl)

abbrev cleaned : Stored (List RawBlock)
cleaned = record {
  raw = failed_index.raw;
  models = raw_block 0 ∷ [];
  status = some (record { hash = b'b' ∷ 1 ∷ []; height = 1; status = invalidated });
}

cleaned_by : cleanup indexers failed_index ≡ done cleaned
unfolding cycle_round cleanup synchronize index_genesis after_hash follow_chain index main_index
    index_all invalidate main_invalidate invalidate_all
cleaned_by = refl

genesis_succeeds :
    (db db' : Stored (List RawBlock)) (e : Error)
    → index_genesis indexers client db ≡ failed e db'
    → db ≡ db'
unfolding index_genesis main_index index_all
genesis_succeeds db db' e g = cc

failed_index-Reach : Reach indexers highest [] NoCrash failed_index
unfolding cycle_round cleanup synchronize index_genesis after_hash follow_chain index main_index
    index_all
failed_index-Reach =
    after (after at_start (whole_round client (λ db s e db' n. genesis_succeeds db db' e) tt))
      (whole_round client (λ db s e db' n. genesis_succeeds db db' e) tt)

Reach-cleanup_example : IsClean indexers [] NoCrash cleaned.models × IsAtRest cleaned.status
Reach-cleanup_example =
    Reach-cleanup indexers highest [] NoCrash failed_index cleaned failed_index-Reach cleaned_by

-- An indexer that does not find what it has to invalidate, behind one that has done its part.
abbrev missing_indexer : Indexer (List RawBlock)
missing_indexer = record { index = λ block x. done x; invalidate = λ block x. thrown not_found x }

abbrev half_undone : Stored (List RawBlock)
half_undone = record {
  raw = failed_index.raw;
  models = raw_block 0 ∷ [];
  status = some (record { hash = b'b' ∷ 1 ∷ []; height = 1; status = reindex });
}

-- The block is invalidated by the first indexer only, and the next cleanup passes over it.
reindex_skips :
    (cleanup (block_indexer ∷ missing_indexer ∷ []) failed_index ≡ thrown not_found half_undone)
    × (cleanup (block_indexer ∷ missing_indexer ∷ []) half_undone ≡ done half_undone)
unfolding cycle_round cleanup synchronize index_genesis after_hash follow_chain index main_index
    index_all invalidate main_invalidate invalidate_all
reindex_skips = (refl, refl)
