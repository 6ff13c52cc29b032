-- ===== src/WhaleApi/Indexer/Runs.antt =====
-- apps/whale-api/src/module.indexer/rpc.block.provider.ts: `index`, `invalidate`, `cleanup` and
-- `synchronize` keep what the status says of the models.
use jellyfishsdk.Prelude.{
  ℕ, ◌+◌, ◌≡◌, refl, sym, subst, List, Bool, inl, inr, Bool-cases, Option, none, some, Result, ok,
  err, same_text, same_text_refl,
}
use jellyfishsdk.Buffer.Hex.{Text}
use jellyfishsdk.WhaleApi.Indexer.{
  RawBlock, indexing, invalidating, IndexStatus, Run, done, thrown, Indexer, Stored, RpcClient,
  index_all, invalidate_all, on_models, put_raw, main_index, invalidate_found, main_invalidate,
  put_status, settle_index, index, is_not_found, is_out_of_range, settle_invalidate, invalidate,
  needs_cleanup, clean, cleanup, Synced, synced, failed, active, follow_chain, after_hash,
  synchronize,
}
use jellyfishsdk.WhaleApi.Indexer.Recovery.{
  left_by, Touched, untouched, IsClean, whole, undone, IsUndoable, IsSettled, IsToldBy,
  IsRecoverable, IsKept, IsSafe, IsAtRest, IsRecoverable-IsAtRest, IsUndoable-IsClean,
  index_all-Touched, invalidate_all-Touched,
}

-- The database after a call of `synchronize`.
abbrev pub left_by_sync : {X : Type 0} → Synced X → Stored X
left_by_sync (synced more db) = db
left_by_sync (failed e db) = db

module _ {X : Type 0} (indexers : List (Indexer X)) (initial : X)
    (cut_short : RawBlock → X → X → Type 0) where
  index_settled :
      (block : RawBlock) (db : Stored X) (w : Run X)
      → IsClean indexers initial cut_short db.models
      → index_all indexers block db.models ≡ w
      → Touched indexers initial cut_short block db.models (left_by w)
      → IsSafe indexers initial cut_short (
          settle_index block (
            on_models
              (record (put_status block.hash block.height indexing db) {
                raw = put_raw block db.raw;
              })
              w))
  index_settled block db (done y) c e t = (whole block c e, refl)
  index_settled block db (thrown f y) c e t =
      rw (same_text_refl block.hash) (λ kept. (db.models, c, t))

  pub index-IsSafe :
      (block : RawBlock) (db : Stored X)
      → IsClean indexers initial cut_short db.models
      → IsSafe indexers initial cut_short (index indexers block db)
  unfolding index main_index
  index-IsSafe block db c = index_settled block db (index_all indexers block db.models) c refl (
      index_all-Touched indexers initial cut_short indexers block db.models db.models (λ i m. m)
        untouched)

  invalidate_settled :
      (hash : Text) (height : ℕ) (db : Stored X) (block : RawBlock) (w : Run X)
      → db.raw hash ≡ some block
      → (x : X) × IsClean indexers initial cut_short x
        × Touched indexers initial cut_short block x db.models
      → invalidate_all indexers block db.models ≡ w
      → ((x : X)
          → Touched indexers initial cut_short block x db.models
          → Touched indexers initial cut_short block x (left_by w))
      → IsSafe indexers initial cut_short
          (settle_invalidate hash height (on_models (put_status hash height invalidating db) w))
  invalidate_settled hash height db block (done y) s (x, c, t) e more = (undone block c t e, refl)
  invalidate_settled hash height db block (thrown f y) s (x, c, t) e more =
      elim (Bool-cases (is_not_found f)) [
        | inl missing ↦ rw missing (λ kept. cc (kept, s))
        | inr other ↦ rw (other, s) (λ kept. (x, c, more x t))
      ]

  invalidate_found-IsSafe :
      (hash : Text) (height : ℕ) (db : Stored X) (block : Option RawBlock)
      → db.raw hash ≡ block
      → IsUndoable indexers initial cut_short block db.models
      → IsSafe indexers initial cut_short (
          settle_invalidate hash height
            (invalidate_found indexers block (put_status hash height invalidating db)))
  invalidate_found-IsSafe hash height db none e u = λ kept. u
  invalidate_found-IsSafe hash height db (some block) e u =
      invalidate_settled hash height db block (invalidate_all indexers block db.models) e u refl
        (λ x.
          invalidate_all-Touched indexers initial cut_short indexers block x db.models (λ i m. m))

  pub invalidate-IsSafe :
      (hash : Text) (height : ℕ) (db : Stored X)
      → IsUndoable indexers initial cut_short (db.raw hash) db.models
      → IsSafe indexers initial cut_short (invalidate indexers hash height db)
  unfolding invalidate main_invalidate
  invalidate-IsSafe hash height db u = invalidate_found-IsSafe hash height db (db.raw hash) refl u

  clean-IsSafe :
      (db : Stored X) (s : Option IndexStatus)
      → db.status ≡ s
      → IsRecoverable indexers initial cut_short db
      → IsSafe indexers initial cut_short (clean indexers s db)
  clean-IsSafe db none e r = (
    subst (λ o. IsToldBy indexers initial cut_short o db.raw db.models) e r,
    subst IsAtRest (sym e) tt,
  )
  clean-IsSafe db (some s) e r =
      let told = subst (λ o. IsToldBy indexers initial cut_short o db.raw db.models) e r in
      let settled =
        λ (b : Bool). IsSettled indexers initial cut_short b (db.raw s.hash) db.models in
      elim (Bool-cases (needs_cleanup s.status)) [
        | inl t ↦ rw t (invalidate-IsSafe s.hash s.height db (subst settled t told))
        | inr f ↦ rw f (subst settled f told, subst IsAtRest (sym e) f)
      ]

  pub cleanup-IsSafe :
      (db : Stored X)
      → IsRecoverable indexers initial cut_short db
      → IsSafe indexers initial cut_short (cleanup indexers db)
  unfolding cleanup
  cleanup-IsSafe db r = clean-IsSafe db db.status refl r

  active-IsSafe :
      (w : Run (Stored X))
      → IsSafe indexers initial cut_short w
      → IsKept indexers initial cut_short (left_by_sync (active w))
  active-IsSafe (done db) s = λ kept. IsRecoverable-IsAtRest indexers initial cut_short db s.0 s.1
  active-IsSafe (thrown e db) s = s

  follow_chain-IsKept :
      (highest next : RawBlock) (db : Stored X)
      → IsClean indexers initial cut_short db.models
      → IsKept indexers initial cut_short (left_by_sync (follow_chain indexers highest next db))
  unfolding follow_chain
  follow_chain-IsKept highest next db c =
      elim (Bool-cases (same_text highest.hash next.previousblockhash)) [
        | inl e ↦ rw e (active-IsSafe (index indexers next db) (index-IsSafe next db c))
        | inr e ↦ rw e (
            active-IsSafe (invalidate indexers highest.hash highest.height db) (
              invalidate-IsSafe highest.hash highest.height db
                (IsUndoable-IsClean indexers initial cut_short (db.raw highest.hash) c)))
      ]

  after_hash-IsKept :
      (client : RpcClient) (highest : RawBlock) (hash : Result Text) (db : Stored X)
      → IsClean indexers initial cut_short db.models
      → IsRecoverable indexers initial cut_short db
      → IsKept indexers initial cut_short
          (left_by_sync (after_hash indexers client highest hash db))
  unfolding after_hash
  after_hash-IsKept client highest (err e) db c r = elim (Bool-cases (is_out_of_range e)) [
    | inl t ↦ rw t (λ kept. r)
    | inr f ↦ rw f (λ kept. r)
  ]
  after_hash-IsKept client highest (ok hash) db c r = after (client.get_block hash)
    where
      after :
          (block : Result RawBlock)
          → IsKept indexers initial cut_short (
              left_by_sync (elim block [
                | err e ↦ failed e db
                | ok next ↦ follow_chain indexers highest next db
              ]))
      after (err e) = λ kept. r
      after (ok next) = follow_chain-IsKept highest next db c

  -- A round that goes on from a block.
  pub synchronize-IsKept :
      (highest : X → Option RawBlock) (client : RpcClient) (block : RawBlock) (db : Stored X)
      → highest db.models ≡ some block
      → IsClean indexers initial cut_short db.models
      → IsRecoverable indexers initial cut_short db
      → IsKept indexers initial cut_short (left_by_sync (synchronize indexers highest client db))
  unfolding synchronize
  synchronize-IsKept highest client block db e c r =
      rw (e, synchronize)
        (after_hash-IsKept client block (client.get_block_hash (block.height + 1)) db c r)
