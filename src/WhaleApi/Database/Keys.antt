-- ===== src/WhaleApi/Database/Keys.antt =====
-- apps/whale-api/src/module.database/provider.level/level.database.ts: the tests of keys decide
-- equality, and an index that is not modified keeps its key.
use jellyfishsdk.Prelude.{
  ◌≡◌, refl, ap, Bool, true, false, not, ◌&&◌, ==→eq, eq→==, same_text, same_text_refl,
  same_text→eq, Option, none, some, Bool-cases, inl, inr,
}
use jellyfishsdk.Buffer.Hex.{Text}
use jellyfishsdk.WhaleApi.Database.{
  ModelKey, text, number, same_model_key, ModelIndex, IndexKey, same_partition, same_index_key,
  index_key, is_index_modified, sub_index, own_key, sort_modified,
}

pub and_parts : (a b : Bool) → a && b ≡ true → (a ≡ true) × (b ≡ true)
and_parts true b h = (refl, h)
and_parts false b h = cc

same_model_key→eq : (j k : ModelKey) → same_model_key j k ≡ true → j ≡ k
same_model_key→eq (text s) (text t) h = ap text (same_text→eq s t h)
same_model_key→eq (number m) (number n) h = ap number (==→eq m n h)
same_model_key→eq (text s) (number n) h = cc
same_model_key→eq (number m) (text t) h = cc

same_model_key_refl : (k : ModelKey) → same_model_key k k ≡ true
same_model_key_refl (text s) = same_text_refl s
same_model_key_refl (number n) = eq→== n n refl

same_partition→eq : (p q : Option Text) → same_partition p q ≡ true → p ≡ q
same_partition→eq none none h = refl
same_partition→eq (some s) (some t) h = ap some (same_text→eq s t h)
same_partition→eq none (some t) h = cc
same_partition→eq (some s) none h = cc

same_partition_refl : (p : Option Text) → same_partition p p ≡ true
same_partition_refl none = refl
same_partition_refl (some s) = same_text_refl s

pub same_index_key→eq : (j k : IndexKey) → same_index_key j k ≡ true → j ≡ k
same_index_key→eq j k h =
    let (n, rest) = and_parts (same_text j.name k.name) _ h in
    let (p, q) = and_parts (same_partition j.partition k.partition) _ rest in
    λ i. record {
      name = same_text→eq j.name k.name n i;
      partition = same_partition→eq j.partition k.partition p i;
      key = same_model_key→eq j.key k.key q i;
    }

pub same_index_key_refl : (k : IndexKey) → same_index_key k k ≡ true
same_index_key_refl k =
    rw (same_text_refl k.name, same_partition_refl k.partition, same_model_key_refl k.key)

not-not : (b : Bool) → not b ≡ false → b ≡ true
not-not true h = refl
not-not false h = cc

module _ {M : Type 0} where
  pub index_key-name :
      (index : ModelIndex M) (model : M) → (index_key index model).name ≡ index.name
  unfolding index_key
  index_key-name index model = go index.sort
    where
      go :
          (sort : Option (M → ModelKey))
          → (sub_index index.name sort
              (index.partition model)
              (own_key sort (index.partition model) model)).name
            ≡ index.name
      go none = refl
      go (some sort) = refl

  pub index_key_same :
      (index : ModelIndex M) (persisted override : M)
      → is_index_modified index persisted override ≡ false
      → index_key index persisted ≡ index_key index override
  unfolding index_key is_index_modified
  index_key_same index persisted override h =
      elim (Bool-cases (same_model_key (index.partition persisted) (index.partition override))) [
        | inl e ↦
            go index.sort
              (same_model_key→eq (index.partition persisted) (index.partition override) e)
              (rw e at h)
        | inr e ↦ cc (let bad = rw e at h in bad)
      ]
    where
      go :
          (sort : Option (M → ModelKey))
          → index.partition persisted ≡ index.partition override
          → sort_modified sort persisted override ≡ false
          → sub_index index.name sort
              (index.partition persisted)
              (own_key sort (index.partition persisted) persisted)
            ≡ sub_index index.name sort
                (index.partition override)
                (own_key sort (index.partition override) override)
      go none e kept = ap (λ k. sub_index {M = M} index.name none k k) e
      go (some sort) e kept =
          let same = same_model_key→eq (sort persisted) (sort override) (not-not _ kept) in
          rw (e, same)
