-- ===== src/WhaleApi/Indexer/Recovery.antt =====
-- apps/whale-api/src/module.indexer/rpc.block.provider.ts: what the status says of the models, and
-- that indexing, invalidating and the cleanup keep it true, whether they throw or not.
use jellyfishsdk.Prelude.{
  ◌≡◌, refl, List, [], ◌∷◌, Bool, true, false, inl, inr, ◌⊎◌, Option, none, some,
}
use jellyfishsdk.Buffer.Hex.{Text}
use jellyfishsdk.WhaleApi.Indexer.{
  RawBlock, Status, reindex, IndexStatus, Run, done, thrown, Indexer, Stored, index_all,
  invalidate_all, needs_cleanup,
}

-- The state that a run leaves.
abbrev pub left_by : {X : Type 0} → Run X → X
left_by (done x) = x
left_by (thrown e x) = x

abbrev pub In : {X : Type 0} → Indexer X → List (Indexer X) → Type 0
In i [] = ⊥
In i (j ∷ rest) = (i ≡ j) ⊎ In i rest

-- There is nothing to clean up.
abbrev pub IsAtRest : Option IndexStatus → Type 0
IsAtRest none = Unit
IsAtRest (some s) = needs_cleanup s.status ≡ false

-- REINDEX is for a block that is not stored.
abbrev pub IsReindexMissing : Status → Option RawBlock → Type 0
IsReindexMissing reindex block = block ≡ none
IsReindexMissing status block = Unit

abbrev pub HasReindexMissing : Option IndexStatus → (Text → Option RawBlock) → Type 0
HasReindexMissing none raw = Unit
HasReindexMissing (some s) raw = IsReindexMissing s.status (raw s.hash)

-- The models of an indexer are given by any state type. `cut_short block y z` is that a crash may
-- leave `z` where an indexer was at work on a block, and found `y`.
module _ {X : Type 0} (indexers : List (Indexer X)) (initial : X)
    (cut_short : RawBlock → X → X → Type 0) where
  -- What runs of some indexers over one block make of the models, to their end or not.
  pub data Touched (block : RawBlock) (x : X) : X → Type 0 where
    untouched : Touched block x x
    index_run :
        {y : X} (i : Indexer X)
        → In i indexers
        → Touched block x y
        → Touched block x (left_by (i.index block y))
    invalidate_run :
        {y : X} (i : Indexer X)
        → In i indexers
        → Touched block x y
        → Touched block x (left_by (i.invalidate block y))
    crash : {y z : X} → cut_short block y z → Touched block x y → Touched block x z

  -- The models after complete runs only: each block that was touched was then indexed, or
  -- invalidated, by every indexer.
  pub data IsClean : X → Type 0 where
    start : IsClean initial
    whole :
        {x y : X} (block : RawBlock) → IsClean x → index_all indexers block x ≡ done y → IsClean y
    undone :
        {x y z : X} (block : RawBlock)
        → IsClean x
        → Touched block x y
        → invalidate_all indexers block y ≡ done z
        → IsClean z

  -- The block of the status can be invalidated: it is stored, and nothing but it was touched, or it
  -- is not stored, and nothing was touched.
  abbrev pub IsUndoable : Option RawBlock → X → Type 0
  IsUndoable none x = IsClean x
  IsUndoable (some block) y = (x : X) × IsClean x × Touched block x y

  abbrev pub IsSettled : Bool → Option RawBlock → X → Type 0
  IsSettled true block x = IsUndoable block x
  IsSettled false block x = IsClean x

  abbrev pub IsToldBy : Option IndexStatus → (Text → Option RawBlock) → X → Type 0
  IsToldBy none raw x = IsClean x
  IsToldBy (some s) raw x = IsSettled (needs_cleanup s.status) (raw s.hash) x

  abbrev pub IsRecoverable : Stored X → Type 0
  IsRecoverable db = IsToldBy db.status db.raw db.models

  abbrev pub IsKept : Stored X → Type 0
  IsKept db = HasReindexMissing db.status db.raw → IsRecoverable db

  -- A run of the provider leaves clean models and nothing to clean up, or where it throws what a
  -- cleanup can undo, but for a REINDEX of a block that is stored.
  abbrev pub IsSafe : Run (Stored X) → Type 0
  IsSafe (done db) = IsClean db.models × IsAtRest db.status
  IsSafe (thrown e db) = IsKept db

  IsToldBy-IsAtRest :
      (status : Option IndexStatus) (raw : Text → Option RawBlock) (x : X)
      → IsAtRest status
      → IsClean x
      → IsToldBy status raw x
  IsToldBy-IsAtRest none raw x rest c = c
  IsToldBy-IsAtRest (some s) raw x rest c = rw rest c

  pub IsRecoverable-IsAtRest :
      (db : Stored X) → IsClean db.models → IsAtRest db.status → IsRecoverable db
  IsRecoverable-IsAtRest db c rest = IsToldBy-IsAtRest db.status db.raw db.models rest c

  pub IsUndoable-IsClean : (block : Option RawBlock) {x : X} → IsClean x → IsUndoable block x
  IsUndoable-IsClean none {x} c = c
  IsUndoable-IsClean (some block) {x} c = (x, c, untouched)

  pub index_all-Touched :
      (l : List (Indexer X)) (block : RawBlock) (x y : X)
      → ((i : Indexer X) → In i l → In i indexers)
      → Touched block x y
      → Touched block x (left_by (index_all l block y))
  unfolding index_all
  index_all-Touched [] block x y sub t = t
  index_all-Touched (i ∷ l) block x y sub t =
      after (i.index block y) (index_run i (sub i (inl refl)) t)
        (λ z. index_all-Touched l block x z (λ j m. sub j (inr m)))
    where
      after :
          (r : Run X)
          → Touched block x (left_by r)
          → ((z : X) → Touched block x z → Touched block x (left_by (index_all l block z)))
          → Touched block x
              (left_by (elim r [ done x' ↦ index_all l block x' | thrown e x' ↦ thrown e x' ]))
      after (done z) u more = more z u
      after (thrown e z) u more = u

  pub invalidate_all-Touched :
      (l : List (Indexer X)) (block : RawBlock) (x y : X)
      → ((i : Indexer X) → In i l → In i indexers)
      → Touched block x y
      → Touched block x (left_by (invalidate_all l block y))
  unfolding invalidate_all
  invalidate_all-Touched [] block x y sub t = t
  invalidate_all-Touched (i ∷ l) block x y sub t =
      after (i.invalidate block y) (invalidate_run i (sub i (inl refl)) t)
        (λ z. invalidate_all-Touched l block x z (λ j m. sub j (inr m)))
    where
      after :
          (r : Run X)
          → Touched block x (left_by r)
          → ((z : X) → Touched block x z → Touched block x (left_by (invalidate_all l block z)))
          → Touched block x
              (left_by (elim r [ done x' ↦ invalidate_all l block x' | thrown e x' ↦ thrown e x' ]))
      after (done z) u more = more z u
      after (thrown e z) u more = u
