-- ===== src/WhaleApi/Indexer/Steps.antt =====
-- apps/whale-api/src/module.indexer/rpc.block.provider.ts: the states of the database that the
-- rounds of `cycle`, their failures and crashes of the process lead to.
use jellyfishsdk.Prelude.{ℕ, ◌≡◌, List, true, Option, none, some, Error}
use jellyfishsdk.Buffer.Hex.{Text}
use jellyfishsdk.WhaleApi.Indexer.{
  RawBlock, indexing, invalidating, done, Indexer, Stored, RpcClient, put_raw, put_status, cleanup,
  failed, index_genesis, needs_cleanup, cycle_round, IndexStatus,
}
use jellyfishsdk.WhaleApi.Indexer.Recovery.{Touched, HasReindexMissing}

-- What is stored before the first round.
abbrev pub empty_database : {X : Type 0} → X → Stored X
empty_database x = record { raw = λ hash. none; models = x; status = none }

module _ {X : Type 0} (indexers : List (Indexer X)) (highest : X → Option RawBlock) (initial : X)
    (cut_short : RawBlock → X → X → Type 0) where
  -- What a crash in `index` leaves: before the raw block is put, or at any point after it.
  pub data CrashIndexing (block : RawBlock) (db : Stored X) : Stored X → Type 0 where
    before_put : CrashIndexing block db (put_status block.hash block.height indexing db)
    after_put :
        (x : X)
        → Touched indexers initial cut_short block db.models x
        → CrashIndexing block db (record (put_status block.hash block.height indexing db) {
          raw = put_raw block db.raw;
          models = x;
        })

  -- What a crash in `invalidate` leaves: before the raw block is found, or at any point after it.
  pub data CrashInvalidating (hash : Text) (height : ℕ) (db : Stored X) : Stored X → Type 0 where
    before_get : CrashInvalidating hash height db (put_status hash height invalidating db)
    after_get :
        (block : RawBlock) (x : X)
        → db.raw hash ≡ some block
        → Touched indexers initial cut_short block db.models x
        → CrashInvalidating hash height db
            (record (put_status hash height invalidating db) { models = x })

  -- Where the first block of all fails to be indexed, nothing is left of it.
  abbrev pub FailsWhole : RpcClient → Stored X → Type 0
  FailsWhole client db =
      (e : Error) (db' : Stored X)
      → highest db.models ≡ none
      → index_genesis indexers client db ≡ failed e db'
      → db ≡ db'

  -- Where a round ends with REINDEX, the block is not stored.
  abbrev pub ReindexesMissing : Stored X → Type 0
  ReindexesMissing db = HasReindexMissing db.status db.raw

  -- One round of `cycle`, or what is done of it where the process ends. `indexGenesis` sets no
  -- status: a process that ends in it is left out, and where it throws, `FailsWhole` is required. A round in
  -- which an indexer throws NotFoundIndexerError half way through an invalidation is left out too.
  pub data Step (db : Stored X) : Stored X → Type 0 where
    whole_round :
        (client : RpcClient)
        → ((db' : Stored X) → cleanup indexers db ≡ done db' → FailsWhole client db')
        → ReindexesMissing (cycle_round indexers highest client db).1
        → Step db (cycle_round indexers highest client db).1
    crash_in_cleanup :
        {db' : Stored X} (s : IndexStatus)
        → db.status ≡ some s
        → needs_cleanup s.status ≡ true
        → CrashInvalidating s.hash s.height db db'
        → Step db db'
    crash_in_index :
        {db' db'' : Stored X} (block : RawBlock)
        → cleanup indexers db ≡ done db'
        → CrashIndexing block db' db''
        → Step db db''
    crash_in_invalidate :
        {db' db'' : Stored X} (hash : Text) (height : ℕ)
        → cleanup indexers db ≡ done db'
        → CrashInvalidating hash height db' db''
        → Step db db''

  pub data Reach : Stored X → Type 0 where
    at_start : Reach (empty_database initial)
    after : {db db' : Stored X} → Reach db → Step db db' → Reach db'
