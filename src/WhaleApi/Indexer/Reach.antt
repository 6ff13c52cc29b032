-- ===== src/WhaleApi/Indexer/Reach.antt =====
-- apps/whale-api/src/module.indexer/rpc.block.provider.ts: in every database that rounds, their
-- failures and crashes lead to, the status tells what a cleanup has to undo.
use jellyfishsdk.Prelude.{
  ℕ, ◌≡◌, refl, sym, subst, List, Bool, true, Option, none, some, same_text_refl, Result, ◌>>=◌,
  err, ok,
}
use jellyfishsdk.Buffer.Hex.{Text}
use jellyfishsdk.WhaleApi.Indexer.{
  RawBlock, needs_cleanup, Run, done, thrown, Indexer, Stored, RpcClient, index_all, on_models,
  put_raw, main_index, cleanup, synced, failed, active, index_genesis, synchronize, Synced,
  end_round, round_after, cycle_round, IndexStatus,
}
use jellyfishsdk.WhaleApi.Indexer.Recovery.{
  Touched, untouched, index_run, invalidate_run, crash, IsSettled, IsToldBy, IsClean, start, whole,
  IsUndoable, IsRecoverable, IsKept, IsSafe, IsAtRest, IsRecoverable-IsAtRest, IsUndoable-IsClean,
}
use jellyfishsdk.WhaleApi.Indexer.Runs.{left_by_sync, cleanup-IsSafe, synchronize-IsKept}
use jellyfishsdk.WhaleApi.Indexer.Steps.{
  CrashIndexing, before_put, after_put, CrashInvalidating, before_get, after_get, FailsWhole, Step,
  whole_round, crash_in_cleanup, crash_in_index, crash_in_invalidate, Reach, at_start, after,
}

left_by_round : {X : Type 0} (s : Synced X) → left_by_sync s ≡ (end_round s).1
left_by_round (synced more db) = refl
left_by_round (failed e db) = refl

module _ {X : Type 0} (indexers : List (Indexer X)) (highest : X → Option RawBlock) (initial : X)
    (cut_short : RawBlock → X → X → Type 0) where
  Touched-trans :
      {block : RawBlock} {x y z : X}
      → Touched indexers initial cut_short block x y
      → Touched indexers initial cut_short block y z
      → Touched indexers initial cut_short block x z
  Touched-trans t untouched = t
  Touched-trans t (index_run i m u) = index_run i m (Touched-trans t u)
  Touched-trans t (invalidate_run i m u) = invalidate_run i m (Touched-trans t u)
  Touched-trans t (crash c u) = crash c (Touched-trans t u)

  after_cleanup :
      (db : Stored X) {db' : Stored X}
      → IsRecoverable indexers initial cut_short db
      → cleanup indexers db ≡ done db'
      → IsClean indexers initial cut_short db'.models × IsAtRest db'.status
  after_cleanup db r e =
      subst (IsSafe indexers initial cut_short) e (cleanup-IsSafe indexers initial cut_short db r)

  CrashIndexing-IsRecoverable :
      (block : RawBlock) {db db' : Stored X}
      → IsClean indexers initial cut_short db.models
      → CrashIndexing indexers highest initial cut_short block db db'
      → IsRecoverable indexers initial cut_short db'
  CrashIndexing-IsRecoverable block {db} c before_put =
      IsUndoable-IsClean indexers initial cut_short (db.raw block.hash) c
  CrashIndexing-IsRecoverable block {db} c (after_put x t) =
      rw (same_text_refl block.hash) (db.models, c, t)

  CrashInvalidating-IsRecoverable :
      (hash : Text) (height : ℕ) {db db' : Stored X}
      → IsUndoable indexers initial cut_short (db.raw hash) db.models
      → CrashInvalidating indexers highest initial cut_short hash height db db'
      → IsRecoverable indexers initial cut_short db'
  CrashInvalidating-IsRecoverable hash height {db} u before_get = u
  CrashInvalidating-IsRecoverable hash height {db} u (after_get block x e t) =
      let (first, c, s) = subst (λ b. IsUndoable indexers initial cut_short b db.models) e u in
      subst (λ b. IsUndoable indexers initial cut_short b x) (sym e) (first, c, Touched-trans s t)

  IsRecoverable-IsUndoable :
      (db : Stored X) (s : IndexStatus)
      → IsRecoverable indexers initial cut_short db
      → db.status ≡ some s
      → needs_cleanup s.status ≡ true
      → IsUndoable indexers initial cut_short (db.raw s.hash) db.models
  IsRecoverable-IsUndoable db s r e n =
      let told = subst (λ o. IsToldBy indexers initial cut_short o db.raw db.models) e r in
      subst (λ b. IsSettled indexers initial cut_short b (db.raw s.hash) db.models) n told

  genesis_indexed :
      (client : RpcClient) (more : Bool) (db : Stored X) {db' : Stored X}
      → IsClean indexers initial cut_short db.models
      → IsAtRest db.status
      → index_genesis indexers client db ≡ synced more db'
      → IsRecoverable indexers initial cut_short db'
  unfolding index_genesis main_index
  genesis_indexed client more db {db'} c rest e =
      fetched (do hash ← client.get_block_hash 0; client.get_block hash) e
    where
      indexed :
          (block : RawBlock) (w : Run X)
          → index_all indexers block db.models ≡ w
          → active (on_models (record db { raw = put_raw block db.raw }) w) ≡ synced more db'
          → IsRecoverable indexers initial cut_short db'
      indexed block (done x) q e =
          subst (λ s. IsRecoverable indexers initial cut_short (left_by_sync s)) e
            (IsRecoverable-IsAtRest indexers initial cut_short
              (record db { raw = put_raw block db.raw; models = x }) (whole block c q) rest)
      indexed block (thrown f x) q e = cc

      fetched :
          (r : Result RawBlock)
          → (elim r [ err e ↦ failed e db | ok block ↦ active (main_index indexers block db) ])
            ≡ synced more db'
          → IsRecoverable indexers initial cut_short db'
      fetched (err f) e = cc
      fetched (ok block) e = indexed block (index_all indexers block db.models) refl e

  genesis-IsRecoverable :
      (client : RpcClient) (db : Stored X)
      → IsClean indexers initial cut_short db.models
      → IsAtRest db.status
      → highest db.models ≡ none
      → FailsWhole indexers highest initial cut_short client db
      → IsRecoverable indexers initial cut_short (end_round (index_genesis indexers client db)).1
  genesis-IsRecoverable client db c rest none_yet fails =
      ended (index_genesis indexers client db) refl
    where
      ended :
          (s : Synced X)
          → index_genesis indexers client db ≡ s
          → IsRecoverable indexers initial cut_short (end_round s).1
      ended (synced more db') e = genesis_indexed client more db c rest e
      ended (failed f db') e =
          subst (IsRecoverable indexers initial cut_short) (fails f db' none_yet e)
            (IsRecoverable-IsAtRest indexers initial cut_short db c rest)

  synchronized-IsKept :
      (client : RpcClient) (db : Stored X) (found : Option RawBlock)
      → IsClean indexers initial cut_short db.models
      → IsAtRest db.status
      → FailsWhole indexers highest initial cut_short client db
      → highest db.models ≡ found
      → IsKept indexers initial cut_short (end_round (synchronize indexers highest client db)).1
  unfolding synchronize
  synchronized-IsKept client db none c rest fails e =
      rw (e, synchronize) (λ kept. genesis-IsRecoverable client db c rest e fails)
  synchronized-IsKept client db (some block) c rest fails e =
      subst (IsKept indexers initial cut_short)
        (left_by_round (synchronize indexers highest client db))
        (synchronize-IsKept indexers initial cut_short highest client block db e c
          (IsRecoverable-IsAtRest indexers initial cut_short db c rest))

  round-IsKept :
      (client : RpcClient) (w : Run (Stored X))
      → ((db' : Stored X) → w ≡ done db' → FailsWhole indexers highest initial cut_short client db')
      → IsSafe indexers initial cut_short w
      → IsKept indexers initial cut_short (round_after indexers highest client w).1
  round-IsKept client (thrown e db) fails s = s
  round-IsKept client (done db) fails s =
      synchronized-IsKept client db (highest db.models) s.0 s.1 (fails db refl) refl

  Step-IsRecoverable :
      (db : Stored X) {db' : Stored X}
      → IsRecoverable indexers initial cut_short db
      → Step indexers highest initial cut_short db db'
      → IsRecoverable indexers initial cut_short db'
  unfolding cycle_round
  Step-IsRecoverable db r (whole_round client fails missing) =
      round-IsKept client (cleanup indexers db) fails
        (cleanup-IsSafe indexers initial cut_short db r) missing
  Step-IsRecoverable db r (crash_in_cleanup s e n k) =
      CrashInvalidating-IsRecoverable s.hash s.height (IsRecoverable-IsUndoable db s r e n) k
  Step-IsRecoverable db r (crash_in_index block e k) =
      CrashIndexing-IsRecoverable block (after_cleanup db r e).0 k
  Step-IsRecoverable db r (crash_in_invalidate {db'} hash height e k) =
      CrashInvalidating-IsRecoverable hash height
        (IsUndoable-IsClean indexers initial cut_short (db'.raw hash) (after_cleanup db r e).0) k

  Reach-IsRecoverable :
      (db : Stored X)
      → Reach indexers highest initial cut_short db
      → IsRecoverable indexers initial cut_short db
  Reach-IsRecoverable db at_start = start
  Reach-IsRecoverable db (after r s) = Step-IsRecoverable _ (Reach-IsRecoverable _ r) s

  -- In every database that rounds, their failures and crashes lead to, a cleanup that does not throw
  -- leaves models of complete runs only, in which each block that was touched was then indexed, or
  -- invalidated, by all indexers, and nothing more to clean up. Two kinds of rounds are left out: one
  -- that ends or fails with the first block of all indexed in part, and one that ends with REINDEX
  -- for a block that is stored, since an indexer threw NotFoundIndexerError in its invalidation.
  pub Reach-cleanup :
      (db db' : Stored X)
      → Reach indexers highest initial cut_short db
      → cleanup indexers db ≡ done db'
      → IsClean indexers initial cut_short db'.models × IsAtRest db'.status
  Reach-cleanup db db' r e = after_cleanup db (Reach-IsRecoverable db r) e
