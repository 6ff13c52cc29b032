-- ===== src/WhaleApi/Indexer.antt =====
-- apps/whale-api/src/module.indexer: the blocks of a node are indexed one after another, and an
-- interrupted one is invalidated (rpc.block.provider.ts, status.ts, model/_main.ts).
pub mod Recovery
pub mod Runs
pub mod Steps
pub mod Reach
use jellyfishsdk.Prelude.{
  ℕ, suc, ◌+◌, List, [], ◌∷◌, Bool, true, false, if◌then◌else◌, same_text, Option, none, some,
  Error, height_out_of_range, not_found, Result, ok, err, ◌>>=◌,
}
use jellyfishsdk.Buffer.Hex.{Text}

-- What the provider reads of a block of the node.
pub record RawBlock : Type 0 where
  pub hash : Text
  pub height : ℕ
  pub previousblockhash : Text

pub data Status : Type 0 where
  indexing indexed invalidating invalidated error reindex : Status

pub record IndexStatus : Type 0 where
  pub hash : Text
  pub height : ℕ
  pub status : Status

-- A run over a state: what it leaves, also where it throws.
pub data Run (X : Type 0) : Type 0 where
  done : X → Run X
  thrown : Error → X → Run X

-- An `Indexer`, over all the models that are stored.
pub record Indexer (X : Type 0) : Type 0 where
  pub index : RawBlock → X → Run X
  pub invalidate : RawBlock → X → Run X

-- The database: the raw blocks, the models, and the status.
pub record Stored (X : Type 0) : Type 0 where
  pub raw : Text → Option RawBlock
  pub models : X
  pub status : Option IndexStatus

-- The calls of the node in one round: `getBlockHash` and `getBlock`.
pub record RpcClient : Type 0 where
  pub get_block_hash : ℕ → Result Text
  pub get_block : Text → Result RawBlock

abbrev pub put_raw : RawBlock → (Text → Option RawBlock) → Text → Option RawBlock
put_raw block raw hash = if same_text block.hash hash then some block else raw hash

abbrev pub needs_cleanup : Status → Bool
needs_cleanup invalidated = false
needs_cleanup indexed = false
needs_cleanup reindex = false
needs_cleanup indexing = true
needs_cleanup invalidating = true
needs_cleanup error = true

abbrev pub is_not_found : Error → Bool
is_not_found not_found = true
is_not_found e = false

abbrev pub is_out_of_range : Error → Bool
is_out_of_range height_out_of_range = true
is_out_of_range e = false

module _ {X : Type 0} where
  unfoldable pub index_all : List (Indexer X) → RawBlock → X → Run X
  index_all [] block x = done x
  index_all (indexer ∷ rest) block x = elim (indexer.index block x) [
    | done x' ↦ index_all rest block x'
    | thrown e x' ↦ thrown e x'
  ]

  unfoldable pub invalidate_all : List (Indexer X) → RawBlock → X → Run X
  invalidate_all [] block x = done x
  invalidate_all (indexer ∷ rest) block x = elim (indexer.invalidate block x) [
    | done x' ↦ invalidate_all rest block x'
    | thrown e x' ↦ thrown e x'
  ]

  abbrev pub on_models : Stored X → Run X → Run (Stored X)
  on_models db (done x) = done (record db { models = x })
  on_models db (thrown e x) = thrown e (record db { models = x })

  -- `MainIndexer.index`
  unfoldable pub main_index : List (Indexer X) → RawBlock → Stored X → Run (Stored X)
  main_index indexers block db =
      let stored = record db { raw = put_raw block db.raw } in
      on_models stored (index_all indexers block stored.models)

  abbrev pub invalidate_found : List (Indexer X) → Option RawBlock → Stored X → Run (Stored X)
  invalidate_found indexers none db = thrown not_found db
  invalidate_found indexers (some block) db = on_models db (invalidate_all indexers block db.models)

  -- `MainIndexer.invalidate`
  unfoldable pub main_invalidate : List (Indexer X) → Text → Stored X → Run (Stored X)
  main_invalidate indexers hash db = invalidate_found indexers (db.raw hash) db

  abbrev pub put_status : Text → ℕ → Status → Stored X → Stored X
  put_status hash height status db = record db {
    status = some (record { hash = hash; height = height; status = status });
  }

  abbrev pub settle_index : RawBlock → Run (Stored X) → Run (Stored X)
  settle_index block (done db) = done (put_status block.hash block.height indexed db)
  settle_index block (thrown e db) = thrown e (put_status block.hash block.height error db)

  -- `RPCBlockProvider.index`
  unfoldable pub index : List (Indexer X) → RawBlock → Stored X → Run (Stored X)
  index indexers block db =
      settle_index block
        (main_index indexers block (put_status block.hash block.height indexing db))

  abbrev pub settle_invalidate : Text → ℕ → Run (Stored X) → Run (Stored X)
  settle_invalidate hash height (done db) = done (put_status hash height invalidated db)
  settle_invalidate hash height (thrown e db) =
      thrown e (put_status hash height (if is_not_found e then reindex else error) db)

  -- `RPCBlockProvider.invalidate`
  unfoldable pub invalidate : List (Indexer X) → Text → ℕ → Stored X → Run (Stored X)
  invalidate indexers hash height db =
      settle_invalidate hash height
        (main_invalidate indexers hash (put_status hash height invalidating db))

  abbrev pub clean : List (Indexer X) → Option IndexStatus → Stored X → Run (Stored X)
  clean indexers none db = done db
  clean indexers (some s) db =
      if needs_cleanup s.status then invalidate indexers s.hash s.height db else done db

  -- `RPCBlockProvider.cleanup`
  unfoldable pub cleanup : List (Indexer X) → Stored X → Run (Stored X)
  cleanup indexers db = clean indexers db.status db

-- What a call of `synchronize` comes to: whether there was any activity, or what it threw.
pub data Synced (X : Type 0) : Type 0 where
  synced : Bool → Stored X → Synced X
  failed : Error → Stored X → Synced X

module _ {X : Type 0} where
  abbrev pub active : Run (Stored X) → Synced X
  active (done db) = synced true db
  active (thrown e db) = failed e db

  -- `indexGenesis`, without a status.
  unfoldable pub index_genesis : List (Indexer X) → RpcClient → Stored X → Synced X
  index_genesis indexers client db =
      elim (do hash ← client.get_block_hash 0; client.get_block hash) [
        | err e ↦ failed e db
        | ok block ↦ active (main_index indexers block db)
      ]

  unfoldable pub follow_chain : List (Indexer X) → RawBlock → RawBlock → Stored X → Synced X
  follow_chain indexers highest next db =
      if same_text highest.hash next.previousblockhash
      then active (index indexers next db)
      else active (invalidate indexers highest.hash highest.height db)

  unfoldable pub after_hash :
      List (Indexer X) → RpcClient → RawBlock → Result Text → Stored X → Synced X
  after_hash indexers client highest (err e) db =
      if is_out_of_range e then synced false db else failed e db
  after_hash indexers client highest (ok hash) db = elim (client.get_block hash) [
    | err e ↦ failed e db
    | ok next ↦ follow_chain indexers highest next db
  ]

  -- `synchronize`, where `highest` is `blockMapper.getHighest` over the models: the fields of the
  -- block that are read.
  unfoldable pub synchronize :
      List (Indexer X) → (X → Option RawBlock) → RpcClient → Stored X → Synced X
  synchronize indexers highest client db = elim (highest db.models) [
    | none ↦ index_genesis indexers client db
    | some block ↦ after_hash indexers client block (client.get_block_hash (block.height + 1)) db
  ]

  abbrev pub end_round : Synced X → Bool × Stored X
  end_round (synced more db) = (more, db)
  end_round (failed e db) = (false, db)

  abbrev pub round_after :
      List (Indexer X) → (X → Option RawBlock) → RpcClient → Run (Stored X) → Bool × Stored X
  round_after indexers highest client (thrown e db) = (false, db)
  round_after indexers highest client (done db) = end_round (synchronize indexers highest client db)

  -- The body of the loop of `cycle`: whether it goes on, and what it leaves. An error ends it.
  unfoldable pub cycle_round :
      List (Indexer X) → (X → Option RawBlock) → RpcClient → Stored X → Bool × Stored X
  cycle_round indexers highest client db = round_after indexers highest client (cleanup indexers db)
