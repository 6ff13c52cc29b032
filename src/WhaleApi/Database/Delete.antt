-- ===== src/WhaleApi/Database/Delete.antt =====
-- apps/whale-api/src/module.database/provider.level/level.database.ts: a delete keeps the indexes a view
-- of the models, of which the deleted one is none.
use jellyfishsdk.Prelude.{
  ◌≡◌, refl, sym, ap, ◌∙◌, subst, All, Bool, true, false, if◌then◌else◌, none, some, Bool-cases,
  inl, inr, same_text, same_text_refl, same_text→eq,
}
use jellyfishsdk.Buffer.Hex.{Text}
use jellyfishsdk.WhaleApi.Database.{
  ModelIndex, ModelMapping, IndexKey, Store, same_index_key, index_key, del_root, del_all, delete,
  delete_found, get, get_by_index, own_key,
}
use jellyfishsdk.WhaleApi.Database.Keys.{same_index_key_refl, index_key-name}
use jellyfishsdk.WhaleApi.Database.Writes.{any, In, any-false, del_all_lem}
use jellyfishsdk.WhaleApi.Database.View.{some_eq, not_none, HasDistinctNames, IsView, only, All-In}

module _ {M : Type 0} (mapping : ModelMapping M) where
  module _ (distinct : HasDistinctNames mapping) (old : M) (store : Store M)
      (view : IsView mapping store) (persisted : store.root (mapping.id_of old) ≡ some old) where
    root_earlier :
        (id : Text) (m : M)
        → del_root (mapping.id_of old) store.root id ≡ some m
        → (store.root id ≡ some m) × (same_text (mapping.id_of old) id ≡ false)
    root_earlier id m h = elim (Bool-cases (same_text (mapping.id_of old) id)) [
      | inl e ↦ not_none (rw e at h)
      | inr e ↦ (rw e at h, e)
    ]

    delete_complete :
        (i : ModelIndex M) (m : M)
        → In i mapping.index
        → del_root (mapping.id_of old) store.root (mapping.id_of m) ≡ some m
        → del_all mapping.index old store.indexes (index_key i m) ≡ some m
    delete_complete i m at h =
        del_all_lem mapping.index old store.indexes (index_key i m)
        ∙ go (any (λ j. same_index_key (index_key j old) (index_key i m)) mapping.index) refl
      where
        go :
            (b : Bool)
            → any (λ j. same_index_key (index_key j old) (index_key i m)) mapping.index ≡ b
            → (if b then none else store.indexes (index_key i m)) ≡ some m
        go false t = view.complete i m at (root_earlier (mapping.id_of m) m h).0
        go true t =
            let (there, differs) = root_earlier (mapping.id_of m) m h in
            let key =
              (only mapping distinct (λ j. true) old i (index_key i m) at (index_key-name i m)
                t).1 in
            let same : old ≡ m = some_eq (
              sym (view.complete i old at persisted)
              ∙ ap store.indexes key
              ∙ view.complete i m at there) in
            absurd (
              cc (
                sym differs
                ∙ subst (λ x. same_text (mapping.id_of old) (mapping.id_of x) ≡ true) same
                    (same_text_refl (mapping.id_of old))))

    delete_sound :
        (i : ModelIndex M) (k : IndexKey) (m : M)
        → In i mapping.index
        → k.name ≡ i.name
        → del_all mapping.index old store.indexes k ≡ some m
        → (del_root (mapping.id_of old) store.root (mapping.id_of m) ≡ some m) × (index_key i m ≡ k)
    delete_sound i k m at named h =
        go (any (λ j. same_index_key (index_key j old) k) mapping.index) refl
          (sym (del_all_lem mapping.index old store.indexes k) ∙ h)
      where
        still :
            (store.root (mapping.id_of m) ≡ some m) × (index_key i m ≡ k)
            → same_index_key (index_key i old) k ≡ false
            → del_root (mapping.id_of old) store.root (mapping.id_of m) ≡ some m
        still (there, key) differs =
            elim (Bool-cases (same_text (mapping.id_of old) (mapping.id_of m))) [
              | inr e ↦ rw e there
              | inl e ↦
                  let same : old ≡ m = some_eq (
                    sym persisted
                    ∙ ap store.root (same_text→eq (mapping.id_of old) (mapping.id_of m) e)
                    ∙ there) in
                  absurd (
                    cc (
                      sym differs
                      ∙ subst (λ x. same_index_key x k ≡ true)
                          (sym key ∙ ap (index_key i) (sym same)) (same_index_key_refl k)))
            ]

        go :
            (b : Bool)
            → any (λ j. same_index_key (index_key j old) k) mapping.index ≡ b
            → (if b then none else store.indexes k) ≡ some m
            → (del_root (mapping.id_of old) store.root (mapping.id_of m) ≡ some m)
              × (index_key i m ≡ k)
        go true t here = not_none here
        go false t here =
            let facts = view.sound i k m at named here in
            (
              still facts
                  (any-false (λ j. same_index_key (index_key j old) k) i mapping.index t at),
              facts.1,
            )

    delete-IsView' : IsView mapping (delete_found mapping (some old) store)
    delete-IsView' = record {
      ids = λ id m h. view.ids id m (root_earlier id m h).0;
      complete = delete_complete;
      sound = delete_sound;
    }

    gone :
        (i : ModelIndex M)
        → In i mapping.index
        → del_all mapping.index old store.indexes (index_key i old) ≡ none
    gone i at =
        del_all_lem mapping.index old store.indexes (index_key i old)
        ∙ go (any (λ j. same_index_key (index_key j old) (index_key i old)) mapping.index) refl
      where
        go :
            (b : Bool)
            → any (λ j. same_index_key (index_key j old) (index_key i old)) mapping.index ≡ b
            → (if b then none else store.indexes (index_key i old)) ≡ none
        go true t = refl
        go false t = absurd (
            cc (
              sym (
                any-false (λ j. same_index_key (index_key j old) (index_key i old)) i mapping.index
                  t at)
              ∙ same_index_key_refl (index_key i old)))

  -- A delete keeps the indexes a view of the models. The model with the id is then found neither by
  -- its id nor by its keys in any index. It assumes that the indexes have different names.
  pub delete-IsView :
      (model : M) (store : Store M)
      → HasDistinctNames mapping
      → IsView mapping store
      → get (mapping.id_of model) store ≡ some model
      → IsView mapping (delete mapping (mapping.id_of model) store)
        × (get (mapping.id_of model) (delete mapping (mapping.id_of model) store) ≡ none)
        × All
            (λ i.
              get_by_index i
                (i.partition model)
                (own_key i.sort (i.partition model) model)
                (delete mapping (mapping.id_of model) store)
              ≡ none)
            mapping.index
  unfolding get get_by_index delete index_key
  delete-IsView model store distinct view found =
      rw (found, same_text_refl (mapping.id_of model))
        (
          delete-IsView' distinct model store view found,
          refl,
          All-In _ mapping.index (λ i at. gone distinct model store view found i at),
        )
