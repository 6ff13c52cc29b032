-- ===== src/WhaleApi/Database/Writes.antt =====
-- apps/whale-api/src/module.database/provider.level/level.database.ts: what a key below the indexes
-- holds after the loops over the indexes.
use jellyfishsdk.Prelude.{
  ◌≡◌, refl, ◌∙◌, List, [], ◌∷◌, Bool, true, false, ◌&&◌, ◌||◌, if◌then◌else◌, Option, none, some,
  Bool-cases, inl, inr, ◌⊎◌,
}
use jellyfishsdk.WhaleApi.Database.{
  ModelIndex, IndexKey, same_index_key, index_key, is_index_modified, put_key, del_key, put_all,
  del_all, del_modified,
}

-- Both tests of a key below an index, one after the other.
two_tests :
    {A : Type 0} (a b : Bool) (x y : A)
    → (if b then x else (if a then x else y)) ≡ (if a || b then x else y)
two_tests true true x y = refl
two_tests true false x y = refl
two_tests false true x y = refl
two_tests false false x y = refl

module _ {M : Type 0} where
  unfoldable pub any : (ModelIndex M → Bool) → List (ModelIndex M) → Bool
  any p [] = false
  any p (index ∷ rest) = p index || any p rest

  -- An index is one of a list.
  abbrev pub In : ModelIndex M → List (ModelIndex M) → Type 0
  In index [] = ⊥
  In index (other ∷ rest) = (index ≡ other) ⊎ In index rest

  pub any-false :
      (p : ModelIndex M → Bool) (index : ModelIndex M) (l : List (ModelIndex M))
      → any p l ≡ false
      → In index l
      → p index ≡ false
  unfolding any
  any-false p index [] h m = absurd m
  any-false p index (other ∷ rest) h (inl e) = rw e (or_left (p other) (any p rest) h)
    where
      or_left : (a b : Bool) → a || b ≡ false → a ≡ false
      or_left false b h = refl
      or_left true b h = cc
  any-false p index (other ∷ rest) h (inr m) = any-false p index rest (or_right (p other) _ h) m
    where
      or_right : (a b : Bool) → a || b ≡ false → b ≡ false
      or_right false b h = h
      or_right true b h = cc

  pub any-true :
      (p : ModelIndex M → Bool) (l : List (ModelIndex M))
      → any p l ≡ true
      → (index : ModelIndex M) × In index l × (p index ≡ true)
  unfolding any
  any-true p [] h = absurd (no h)
    where
      no : false ≡ true → ⊥
      no e = cc
  any-true p (index ∷ rest) h = elim (Bool-cases (p index)) [
    | inl e ↦ (index, inl refl, e)
    | inr e ↦ let (other, m, q) = any-true p rest (rw e at h) in (other, inr m, q)
  ]

  pub put_all_lem :
      (l : List (ModelIndex M)) (model : M) (indexes : IndexKey → Option M) (k : IndexKey)
      → put_all l model indexes k
        ≡ (if any (λ i. same_index_key (index_key i model) k) l then some model else indexes k)
  unfolding put_all any
  put_all_lem [] model indexes k = refl
  put_all_lem (i ∷ rest) model indexes k =
      put_all_lem rest model (put_key (index_key i model) model indexes) k
      ∙ two_tests (same_index_key (index_key i model) k) (any _ rest) (some model) (indexes k)

  pub del_all_lem :
      (l : List (ModelIndex M)) (model : M) (indexes : IndexKey → Option M) (k : IndexKey)
      → del_all l model indexes k
        ≡ (if any (λ i. same_index_key (index_key i model) k) l then none else indexes k)
  unfolding del_all any
  del_all_lem [] model indexes k = refl
  del_all_lem (i ∷ rest) model indexes k =
      del_all_lem rest model (del_key (index_key i model) indexes) k
      ∙ two_tests (same_index_key (index_key i model) k) (any _ rest) none (indexes k)

  pub del_modified_lem :
      (l : List (ModelIndex M)) (old model : M) (indexes : IndexKey → Option M) (k : IndexKey)
      → del_modified l old model indexes k ≡ (
          if any (λ i. is_index_modified i old model && same_index_key (index_key i old) k) l
          then none
          else indexes k)
  unfolding del_modified any
  del_modified_lem [] old model indexes k = refl
  del_modified_lem (i ∷ rest) old model indexes k =
      del_modified_lem rest old model _ k ∙ deleted (is_index_modified i old model)
    where
      deleted :
          (modified : Bool)
          → (if any (λ i. is_index_modified i old model && same_index_key (index_key i old) k) rest
              then none
              else (if modified then del_key (index_key i old) indexes else indexes) k)
            ≡ (if (modified && same_index_key (index_key i old) k)
                  || any
                      (λ i. is_index_modified i old model && same_index_key (index_key i old) k)
                      rest
                then none
                else indexes k)
      deleted true = two_tests (same_index_key (index_key i old) k) (any _ rest) none (indexes k)
      deleted false = refl
