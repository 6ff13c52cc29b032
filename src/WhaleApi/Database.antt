-- ===== src/WhaleApi/Database.antt =====
-- apps/whale-api/src/module.database: the models of one mapping in a store of keys and values
-- (provider.level/level.database.ts), once by their ids and once for each index.
pub mod Keys
pub mod Writes
pub mod View
pub mod Put
pub mod Delete
use jellyfishsdk.Prelude.{
  ℕ, List, [], ◌∷◌, Bool, true, false, not, ◌&&◌, ◌==◌, if◌then◌else◌, same_text, Option, none,
  some, Result, ok, err, invalid_length,
}
use jellyfishsdk.Prelude.Decimal.{decimal}
use jellyfishsdk.Buffer.Hex.{Text}

pub data ModelKey : Type 0 where
  text : Text → ModelKey
  number : ℕ → ModelKey

abbrev pub same_model_key : ModelKey → ModelKey → Bool
same_model_key (text s) (text t) = same_text s t
same_model_key (number m) (number n) = m == n
same_model_key (text s) (number n) = false
same_model_key (number m) (text t) = false

pub record ModelIndex (M : Type 0) : Type 0 where
  pub name : Text
  pub partition : M → ModelKey
  pub sort : Option (M → ModelKey)

-- `index` has the values of the record of indexes.
pub record ModelMapping (M : Type 0) : Type 0 where
  pub id_of : M → Text
  pub index : List (ModelIndex M)

-- A key of the store below an index: the name of the index, that of a partition in it, and the key.
pub record IndexKey : Type 0 where
  pub name : Text
  pub partition : Option Text
  pub key : ModelKey

abbrev pub same_partition : Option Text → Option Text → Bool
same_partition none none = true
same_partition (some s) (some t) = same_text s t
same_partition none (some t) = false
same_partition (some s) none = false

abbrev pub same_index_key : IndexKey → IndexKey → Bool
same_index_key j k =
    same_text j.name k.name
    && (same_partition j.partition k.partition && same_model_key j.key k.key)

-- `level` as the source divides it: the values by their ids, and those below the indexes.
pub record Store (M : Type 0) : Type 0 where
  pub root : Text → Option M
  pub indexes : IndexKey → Option M

-- `put` and `del` of the store.
abbrev pub put_root : {M : Type 0} → Text → M → (Text → Option M) → Text → Option M
put_root id model root other = if same_text id other then some model else root other

abbrev pub del_root : {M : Type 0} → Text → (Text → Option M) → Text → Option M
del_root id root other = if same_text id other then none else root other

abbrev pub put_key : {M : Type 0} → IndexKey → M → (IndexKey → Option M) → IndexKey → Option M
put_key k model indexes other = if same_index_key k other then some model else indexes other

abbrev pub del_key : {M : Type 0} → IndexKey → (IndexKey → Option M) → IndexKey → Option M
del_key k indexes other = if same_index_key k other then none else indexes other

-- `${partitionKey}`
abbrev pub key_text : ModelKey → Text
key_text (text s) = s
key_text (number n) = decimal n

module _ {M : Type 0} where
  -- `subIndex`, with the key in it.
  abbrev pub sub_index : Text → Option (M → ModelKey) → ModelKey → ModelKey → IndexKey
  sub_index name none partition_key key = record { name = name; partition = none; key = key }
  sub_index name (some sort) partition_key key = record {
    name = name;
    partition = some (key_text partition_key);
    key = key;
  }

  -- `index.sort !== undefined ? index.sort.key(model) : index.partition.key(model)`
  abbrev pub own_key : Option (M → ModelKey) → ModelKey → M → ModelKey
  own_key none partition_key model = partition_key
  own_key (some sort) partition_key model = sort model

  unfoldable pub index_key : ModelIndex M → M → IndexKey
  index_key index model =
      let partition_key = index.partition model in
      sub_index index.name index.sort partition_key (own_key index.sort partition_key model)

  abbrev pub sort_modified : Option (M → ModelKey) → M → M → Bool
  sort_modified none persisted override = false
  sort_modified (some sort) persisted override =
      not (same_model_key (sort persisted) (sort override))

  unfoldable pub is_index_modified : ModelIndex M → M → M → Bool
  is_index_modified index persisted override =
      if same_model_key (index.partition persisted) (index.partition override)
      then sort_modified index.sort persisted override
      else true

  unfoldable pub del_modified :
      List (ModelIndex M) → M → M → (IndexKey → Option M) → IndexKey → Option M
  del_modified [] persisted model indexes = indexes
  del_modified (index ∷ rest) persisted model indexes = del_modified rest persisted model (
      if is_index_modified index persisted model
      then del_key (index_key index persisted) indexes
      else indexes)

  abbrev pub del_persisted :
      List (ModelIndex M) → Option M → M → (IndexKey → Option M) → IndexKey → Option M
  del_persisted index none model indexes = indexes
  del_persisted index (some persisted) model indexes = del_modified index persisted model indexes

  unfoldable pub put_all : List (ModelIndex M) → M → (IndexKey → Option M) → IndexKey → Option M
  put_all [] model indexes = indexes
  put_all (index ∷ rest) model indexes =
      put_all rest model (put_key (index_key index model) model indexes)

  unfoldable pub del_all : List (ModelIndex M) → M → (IndexKey → Option M) → IndexKey → Option M
  del_all [] model indexes = indexes
  del_all (index ∷ rest) model indexes =
      del_all rest model (del_key (index_key index model) indexes)

  unfoldable pub put : ModelMapping M → M → Store M → Store M
  put mapping model store =
      let id = mapping.id_of model in
      let kept = del_persisted mapping.index (store.root id) model store.indexes in
      record { root = put_root id model store.root; indexes = put_all mapping.index model kept }

  abbrev pub delete_found : ModelMapping M → Option M → Store M → Store M
  delete_found mapping none store = store
  delete_found mapping (some model) store = record {
    root = del_root (mapping.id_of model) store.root;
    indexes = del_all mapping.index model store.indexes;
  }

  unfoldable pub delete : ModelMapping M → Text → Store M → Store M
  delete mapping id store = delete_found mapping (store.root id) store

  unfoldable pub get : Text → Store M → Option M
  get id store = store.root id

  -- `get` with an index: the key is the sort key where the index has one.
  unfoldable pub get_by_index : ModelIndex M → ModelKey → ModelKey → Store M → Option M
  get_by_index index partition_key key store =
      store.indexes (sub_index index.name index.sort partition_key key)
