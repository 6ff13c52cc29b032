-- ===== src/WhaleApi/Database/View.antt =====
-- apps/whale-api/src/module.database/provider.level/level.database.ts: the indexes stay a view of the
-- models.
use jellyfishsdk.Prelude.{
  ◌≡◌, refl, sym, ap, ◌∙◌, subst, List, [], ◌∷◌, All, Bool, true, false, ◌&&◌, none, some, ◌⊎◌,
  Bool-cases, inl, inr, same_text, same_text_refl, same_text→eq,
}
use jellyfishsdk.Buffer.Hex.{Text}
use jellyfishsdk.WhaleApi.Database.{
  ModelIndex, ModelMapping, IndexKey, Store, same_index_key, index_key,
}
use jellyfishsdk.WhaleApi.Database.Keys.{and_parts, same_index_key→eq, index_key-name}
use jellyfishsdk.WhaleApi.Database.Writes.{any, In, any-true}

pub same_id : (s t : Text) → (s ≡ t) ⊎ (s ≡ t → ⊥)
same_id s t = elim (Bool-cases (same_text s t)) [
  | inl e ↦ inl (same_text→eq s t e)
  | inr e ↦ inr (λ same. cc (sym e ∙ subst (λ x. same_text s x ≡ true) same (same_text_refl s)))
]

pub left_false : (a b : Bool) → a && b ≡ false → b ≡ true → a ≡ false
left_false false b h g = refl
left_false true b h g = cc

pub some_eq : {M : Type 0} {x y : M} → some x ≡ some y → x ≡ y
some_eq e = cc

pub not_none : {M A : Type 0} {x : M} → none ≡ some x → A
not_none {M} {A} e = absurd (no e)
  where
    no : {x : M} → none ≡ some x → ⊥
    no e = cc

module _ {M : Type 0} where
  pub All-In :
      (P : ModelIndex M → Type 0) (l : List (ModelIndex M))
      → ((i : ModelIndex M) → In i l → P i)
      → All P l
  All-In P [] h = tt
  All-In P (i ∷ l) h = (h i (inl refl), All-In P l (λ j at. h j (inr at)))

module _ {M : Type 0} (mapping : ModelMapping M) where
  -- The indexes of a mapping have different names.
  abbrev pub HasDistinctNames : Type 0
  HasDistinctNames =
      (i j : ModelIndex M) → In i mapping.index → In j mapping.index → i.name ≡ j.name → i ≡ j

  -- Below each index stands each model of the root with its key, and nothing else.
  pub record IsView (store : Store M) : Type 0 where
    pub ids : (id : Text) (m : M) → store.root id ≡ some m → mapping.id_of m ≡ id
    pub complete :
        (i : ModelIndex M) (m : M)
        → In i mapping.index
        → store.root (mapping.id_of m) ≡ some m
        → store.indexes (index_key i m) ≡ some m
    pub sound :
        (i : ModelIndex M) (k : IndexKey) (m : M)
        → In i mapping.index
        → k.name ≡ i.name
        → store.indexes k ≡ some m
        → (store.root (mapping.id_of m) ≡ some m) × (index_key i m ≡ k)

  -- No other model has a key of the model below an index.
  abbrev pub HasFreeKeys : M → Store M → Type 0
  HasFreeKeys model store =
      (i : ModelIndex M) (other : M)
      → In i mapping.index
      → store.root (mapping.id_of other) ≡ some other
      → index_key i other ≡ index_key i model
      → mapping.id_of other ≡ mapping.id_of model

  -- The test of one index decides that of the list, at a key below the index.
  pub only :
      HasDistinctNames
      → (p : ModelIndex M → Bool) (m : M) (i : ModelIndex M) (k : IndexKey) → In i mapping.index
      → k.name ≡ i.name
      → any (λ j. p j && same_index_key (index_key j m) k) mapping.index ≡ true
      → (p i ≡ true) × (index_key i m ≡ k)
  only distinct p m i k at named h =
      let (j, there, t) = any-true (λ j. p j && same_index_key (index_key j m) k) mapping.index h in
      let (q, same) = and_parts (p j) (same_index_key (index_key j m) k) t in
      let key = same_index_key→eq (index_key j m) k same in
      let e : j ≡ i =
        distinct j i there at
          (sym (index_key-name j m) ∙ ap (λ (x : IndexKey). x.name) key ∙ named) in
      (subst (λ x. p x ≡ true) e q, subst (λ x. index_key x m ≡ k) e key)
