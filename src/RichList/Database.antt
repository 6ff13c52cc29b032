-- ===== src/RichList/Database.antt =====
-- packages/rich-list-core/src/persistent/SingleIndexDb.ts: `InMemoryDatabase`, whose state is a
-- list of entries for each partition, those that exist in the order of their creation.
pub mod Laws
pub mod Ends
use jellyfishsdk.Prelude.{ℕ, List, [], ◌∷◌, ◌++◌, take, Option, none, some}
use jellyfishsdk.Prelude.{Bool, true, false, ltb, leb, if◌then◌else◌, same_text}
use jellyfishsdk.Buffer.Hex.{Text}
use mathlib.Core.List.{reverse}

-- `data` of the source is `payload`.
pub record Schema (T : Type 0) : Type 0 where
  pub id : Text
  pub partition : Text
  pub sort : ℕ
  pub payload : T

pub data Order : Type 0 where
  asc desc : Order

pub record FindOptions : Type 0 where
  pub partition : Text
  pub order : Order
  pub limit : ℕ
  pub gt : Option ℕ
  pub lt : Option ℕ

abbrev pub Database : Type 0 → Type 0
Database T = List (Text × List (Schema T))

module _ {T : Type 0} where
  -- `findIndex(d => d.id === id) !== -1`
  unfoldable pub has_id : Text → List (Schema T) → Bool
  has_id id [] = false
  has_id id (d ∷ ds) = if same_text d.id id then true else has_id id ds

  -- `splice(existed, 1)`, where an entry with the id is there.
  unfoldable pub remove_id : Text → List (Schema T) → List (Schema T)
  remove_id id [] = []
  remove_id id (d ∷ ds) = if same_text d.id id then ds else d ∷ remove_id id ds

  -- `splice(-1, 1)`
  unfoldable pub drop_last : List (Schema T) → List (Schema T)
  drop_last [] = []
  drop_last (d ∷ []) = []
  drop_last (d ∷ e ∷ ds) = d ∷ drop_last (e ∷ ds)

  unfoldable pub insert : Schema T → List (Schema T) → List (Schema T)
  insert d [] = d ∷ []
  insert d (e ∷ es) = if leb d.sort e.sort then d ∷ e ∷ es else e ∷ insert d es

  -- `sort((a, b) => a.sort - b.sort)`, which is stable.
  unfoldable pub sort_entries : List (Schema T) → List (Schema T)
  sort_entries [] = []
  sort_entries (d ∷ ds) = insert d (sort_entries ds)

  unfoldable pub put_in : Schema T → List (Schema T) → List (Schema T)
  put_in entry partition = sort_entries (remove_id entry.id partition ++ (entry ∷ []))

  unfoldable pub put : Schema T → Database T → Database T
  put entry [] = (entry.partition, put_in entry []) ∷ []
  put entry ((name, partition) ∷ rest) =
      if same_text name entry.partition
      then (name, put_in entry partition) ∷ rest
      else (name, partition) ∷ put entry rest

  -- `splice(index, 1)`, whether the id is there or not.
  unfoldable pub delete_in : Text → List (Schema T) → List (Schema T)
  delete_in id partition =
      if has_id id partition then remove_id id partition else drop_last partition

  unfoldable pub delete : Text → Database T → Database T
  delete id [] = []
  delete id ((name, partition) ∷ rest) = (name, delete_in id partition) ∷ delete id rest

  -- `this.data[name]`, and an empty partition for undefined.
  unfoldable pub partition_of : Text → Database T → List (Schema T)
  partition_of name [] = []
  partition_of name ((other, partition) ∷ rest) =
      if same_text other name then partition else partition_of name rest

  unfoldable pub filter : (Schema T → Bool) → List (Schema T) → List (Schema T)
  filter keep [] = []
  filter keep (d ∷ ds) = if keep d then d ∷ filter keep ds else filter keep ds

  abbrev pub above : Option ℕ → Schema T → Bool
  above none d = true
  above (some gt) d = ltb gt d.sort

  abbrev pub below : Option ℕ → Schema T → Bool
  below none d = true
  below (some lt) d = ltb d.sort lt

  abbrev pub ordered : Order → List (Schema T) → List (Schema T)
  ordered asc ds = ds
  ordered desc ds = reverse ds

  unfoldable pub list : FindOptions → Database T → List (Schema T)
  list options db = take options.limit (
      filter (below options.lt)
        (filter (above options.gt) (ordered options.order (partition_of options.partition db))))
