-- ===== src/WhaleApi/Database/Put.antt =====
-- apps/whale-api/src/module.database/provider.level/level.database.ts: a put keeps the indexes a view of
-- the models, of which the new one is one.
use jellyfishsdk.Prelude.{
  ◌≡◌, refl, sym, ap, ◌∙◌, subst, All, Bool, true, false, ◌&&◌, if◌then◌else◌, Option, none, some,
  Bool-cases, inl, inr, same_text, same_text_refl, same_text→eq,
}
use jellyfishsdk.Buffer.Hex.{Text}
use jellyfishsdk.WhaleApi.Database.{
  ModelIndex, ModelMapping, IndexKey, Store, same_index_key, index_key, is_index_modified, put_root,
  put_all, del_persisted, put, get, get_by_index, own_key,
}
use jellyfishsdk.WhaleApi.Database.Keys.{same_index_key_refl, index_key-name, index_key_same}
use jellyfishsdk.WhaleApi.Database.Writes.{any, In, any-false, put_all_lem, del_modified_lem}
use jellyfishsdk.WhaleApi.Database.View.{
  same_id, left_false, some_eq, not_none, HasDistinctNames, IsView, HasFreeKeys, only, All-In,
}

module _ {M : Type 0} (mapping : ModelMapping M) where
  module _ (distinct : HasDistinctNames mapping) (model : M) (store : Store M)
      (view : IsView mapping store) where
    -- The key of the persisted model below an index, if it is deleted.
    abbrev deleted_key : ModelIndex M → M → IndexKey → Bool
    deleted_key i old k = is_index_modified i old model && same_index_key (index_key i old) k

    abbrev kept : Option M → IndexKey → Option M
    kept persisted = del_persisted mapping.index persisted model store.indexes

    -- What stands there of another model stays.
    kept_other :
        (persisted : Option M) (i : ModelIndex M) (k : IndexKey) (m : M)
        → store.root (mapping.id_of model) ≡ persisted
        → In i mapping.index
        → k.name ≡ i.name
        → store.indexes k ≡ some m
        → (mapping.id_of m ≡ mapping.id_of model → ⊥)
        → kept persisted k ≡ some m
    kept_other none i k m e at named h differs = h
    kept_other (some old) i k m e at named h differs =
        del_modified_lem mapping.index old model store.indexes k
        ∙ go (any (λ j. deleted_key j old k) mapping.index) refl
      where
        go :
            (b : Bool)
            → any (λ j. deleted_key j old k) mapping.index ≡ b
            → (if b then none else store.indexes k) ≡ some m
        go false t = h
        go true t =
            let own = view.ids (mapping.id_of model) old e in
            let there = view.complete i old at (ap store.root own ∙ e) in
            let same : old ≡ m = some_eq (
              sym there
              ∙ ap store.indexes
                  (only mapping distinct (λ j. is_index_modified j old model) old i k at named t).1
              ∙ h) in
            absurd (differs (ap mapping.id_of (sym same) ∙ own))

    -- What still stands there is of the view, and has the key of the new model if it has its id.
    kept_sound :
        (persisted : Option M) (i : ModelIndex M) (k : IndexKey) (m : M)
        → store.root (mapping.id_of model) ≡ persisted
        → In i mapping.index
        → k.name ≡ i.name
        → kept persisted k ≡ some m
        → (store.root (mapping.id_of m) ≡ some m)
          × (index_key i m ≡ k)
          × (mapping.id_of m ≡ mapping.id_of model → index_key i m ≡ index_key i model)
    kept_sound none i k m e at named h =
        let (there, key) = view.sound i k m at named h in
        (there, key, λ same. not_none (sym e ∙ ap store.root (sym same) ∙ there))
    kept_sound (some old) i k m e at named h =
        go (any (λ j. deleted_key j old k) mapping.index) refl
          (sym (del_modified_lem mapping.index old model store.indexes k) ∙ h)
      where
        go :
            (b : Bool)
            → any (λ j. deleted_key j old k) mapping.index ≡ b
            → (if b then none else store.indexes k) ≡ some m
            → (store.root (mapping.id_of m) ≡ some m)
              × (index_key i m ≡ k)
              × (mapping.id_of m ≡ mapping.id_of model → index_key i m ≡ index_key i model)
        go true t here = not_none here
        go false t here =
            let (there, key) = view.sound i k m at named here in (there, key, unmodified there key)
          where
            unmodified :
                store.root (mapping.id_of m) ≡ some m
                → index_key i m ≡ k
                → mapping.id_of m ≡ mapping.id_of model
                → index_key i m ≡ index_key i model
            unmodified there key same =
                let is_old : old ≡ m = some_eq (sym e ∙ ap store.root (sym same) ∙ there) in
                let test = any-false (λ j. deleted_key j old k) i mapping.index t at in
                subst (λ x. index_key i x ≡ index_key i model) is_old
                  (index_key_same i old model (
                    left_false (is_index_modified i old model) _ test (
                      subst (λ x. same_index_key x k ≡ true)
                        (sym key ∙ ap (index_key i) (sym is_old)) (same_index_key_refl k))))

    root_own : put_root (mapping.id_of model) model store.root (mapping.id_of model) ≡ some model
    root_own = rw (same_text_refl (mapping.id_of model))

    root_other :
        (id : Text)
        → same_text (mapping.id_of model) id ≡ false
        → put_root (mapping.id_of model) model store.root id ≡ store.root id
    root_other id e = rw e

    put_ids :
        (id : Text) (m : M)
        → put_root (mapping.id_of model) model store.root id ≡ some m
        → mapping.id_of m ≡ id
    put_ids id m h = elim (Bool-cases (same_text (mapping.id_of model) id)) [
      | inl e ↦
          let new : model ≡ m = some_eq (rw e at h) in
          ap mapping.id_of (sym new) ∙ same_text→eq (mapping.id_of model) id e
      | inr e ↦ view.ids id m (rw e at h)
    ]

    no_key :
        (i : ModelIndex M) (m : M)
        → model ≡ m
        → same_index_key (index_key i model) (index_key i m) ≡ false
        → ⊥
    no_key i m e differs = cc (
        sym differs
        ∙ subst (λ x. same_index_key (index_key i model) (index_key i x) ≡ true) e
            (same_index_key_refl (index_key i model)))

    put_complete :
        (i : ModelIndex M) (m : M)
        → HasFreeKeys mapping model store
        → In i mapping.index
        → put_root (mapping.id_of model) model store.root (mapping.id_of m) ≡ some m
        → put_all mapping.index model (kept (store.root (mapping.id_of model))) (index_key i m)
          ≡ some m
    put_complete i m free at h =
        put_all_lem mapping.index model (kept (store.root (mapping.id_of model))) (index_key i m)
        ∙ go (any (λ j. same_index_key (index_key j model) (index_key i m)) mapping.index) refl
      where
        own : mapping.id_of m ≡ mapping.id_of model → model ≡ m
        own e =
            some_eq
              (sym root_own ∙ ap (put_root (mapping.id_of model) model store.root) (sym e) ∙ h)

        earlier :
            (mapping.id_of m ≡ mapping.id_of model → ⊥) → store.root (mapping.id_of m) ≡ some m
        earlier differs = elim (Bool-cases (same_text (mapping.id_of model) (mapping.id_of m))) [
          | inl e ↦ absurd (differs (sym (same_text→eq (mapping.id_of model) (mapping.id_of m) e)))
          | inr e ↦ rw e at h
        ]

        go :
            (b : Bool)
            → any (λ j. same_index_key (index_key j model) (index_key i m)) mapping.index ≡ b
            → (if b then some model else kept (store.root (mapping.id_of model)) (index_key i m))
              ≡ some m
        go true t =
            let key =
              (only mapping distinct (λ j. true) model i (index_key i m) at (index_key-name i m)
                t).1 in
            ap some (elim (same_id (mapping.id_of m) (mapping.id_of model)) [
              | inl e ↦ own e
              | inr differs ↦ own (free i m at (earlier differs) (sym key))
            ])
        go false t = elim (same_id (mapping.id_of m) (mapping.id_of model)) [
          | inl e ↦ absurd (
              no_key i m (own e) (
                any-false (λ j. same_index_key (index_key j model) (index_key i m)) i mapping.index
                  t at))
          | inr differs ↦
              kept_other (store.root (mapping.id_of model)) i (index_key i m) m refl at
                (index_key-name i m) (view.complete i m at (earlier differs)) differs
        ]

    put_sound :
        (i : ModelIndex M) (k : IndexKey) (m : M)
        → In i mapping.index
        → k.name ≡ i.name
        → put_all mapping.index model (kept (store.root (mapping.id_of model))) k ≡ some m
        → (put_root (mapping.id_of model) model store.root (mapping.id_of m) ≡ some m)
          × (index_key i m ≡ k)
    put_sound i k m at named h =
        go (any (λ j. same_index_key (index_key j model) k) mapping.index) refl
          (sym (put_all_lem mapping.index model (kept (store.root (mapping.id_of model))) k) ∙ h)
      where
        other :
            (store.root (mapping.id_of m) ≡ some m)
              × (index_key i m ≡ k)
              × (mapping.id_of m ≡ mapping.id_of model → index_key i m ≡ index_key i model)
            → same_index_key (index_key i model) k ≡ false
            → put_root (mapping.id_of model) model store.root (mapping.id_of m) ≡ some m
        other (there, key, own) differs =
            elim (Bool-cases (same_text (mapping.id_of model) (mapping.id_of m))) [
              | inr e ↦ root_other (mapping.id_of m) e ∙ there
              | inl e ↦
                  let same = own (sym (same_text→eq (mapping.id_of model) (mapping.id_of m) e)) in
                  absurd (
                    cc (
                      sym differs
                      ∙ subst (λ x. same_index_key x k ≡ true) (sym key ∙ same)
                          (same_index_key_refl k)))
            ]

        go :
            (b : Bool)
            → any (λ j. same_index_key (index_key j model) k) mapping.index ≡ b
            → (if b then some model else kept (store.root (mapping.id_of model)) k) ≡ some m
            → (put_root (mapping.id_of model) model store.root (mapping.id_of m) ≡ some m)
              × (index_key i m ≡ k)
        go true t here =
            let new : model ≡ m = some_eq here in
            (
              subst
                  (λ x. put_root (mapping.id_of model) model store.root (mapping.id_of x) ≡ some x)
                  new root_own,
              subst (λ x. index_key i x ≡ k) new
                  (only mapping distinct (λ j. true) model i k at named t).1,
            )
        go false t here =
            let facts = kept_sound (store.root (mapping.id_of model)) i k m refl at named here in
            (
              other facts
                  (any-false (λ j. same_index_key (index_key j model) k) i mapping.index t at),
              facts.1,
            )

    -- The indexes are a view of the models also after a put.
    put-IsView' : HasFreeKeys mapping model store → IsView mapping (put mapping model store)
    unfolding put
    put-IsView' free = record {
      ids = put_ids;
      complete = λ i m at h. put_complete i m free at h;
      sound = put_sound;
    }

  -- A put keeps the indexes a view of the models: below each index stand exactly the models with
  -- their keys. The model is then found by its id and by its keys in every index. It assumes that
  -- the indexes have different names and that no other model has a key of the new one.
  pub put-IsView :
      (model : M) (store : Store M)
      → HasDistinctNames mapping
      → IsView mapping store
      → HasFreeKeys mapping model store
      → IsView mapping (put mapping model store)
        × (get (mapping.id_of model) (put mapping model store) ≡ some model)
        × All
            (λ i.
              get_by_index i
                (i.partition model)
                (own_key i.sort (i.partition model) model)
                (put mapping model store)
              ≡ some model)
            mapping.index
  unfolding get get_by_index put index_key
  put-IsView model store distinct view free =
      let later = put-IsView' distinct model store view free in
      let found = root_own distinct model store view in
      (later, found, All-In _ mapping.index (λ i at. later.complete i model at found))
