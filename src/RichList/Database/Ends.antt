-- ===== src/RichList/Database/Ends.antt =====
-- packages/rich-list-core/src/persistent/SingleIndexDb.ts: a new greatest entry comes last in its
-- partition, and the last entry is deleted by its id.
use jellyfishsdk.Prelude.{
  ◌≤◌, ◌≡◌, refl, ap, List, [], ◌∷◌, ◌++◌, All, All-append, true, false, le→leb, same_text,
  same_text_refl, Bool-cases, inl, inr,
}
use jellyfishsdk.Buffer.Hex.{Text}
use jellyfishsdk.RichList.Database.{
  Schema, put_in, insert, sort_entries, remove_id, has_id, delete_in,
}
use jellyfishsdk.RichList.Database.Laws.{IsSorted}

module _ {T : Type 0} where
  -- No entry has the id.
  abbrev pub IsAbsent : Text → List (Schema T) → Type 0
  IsAbsent id ds = All (λ e. same_text e.id id ≡ false) ds

  remove_id-absent : (id : Text) (ds : List (Schema T)) → IsAbsent id ds → remove_id id ds ≡ ds
  unfolding remove_id
  remove_id-absent id [] h = refl
  remove_id-absent id (d ∷ ds) (e, h) = rw e (ap (λ rest. d ∷ rest) (remove_id-absent id ds h))

  remove_id-last :
      (d : Schema T) (ds : List (Schema T))
      → IsAbsent d.id ds
      → remove_id d.id (ds ++ (d ∷ [])) ≡ ds
  unfolding remove_id
  remove_id-last d [] h = rw (same_text_refl d.id)
  remove_id-last d (e ∷ ds) (n, h) = rw n (ap (λ rest. e ∷ rest) (remove_id-last d ds h))

  has_id-last : (d : Schema T) (ds : List (Schema T)) → has_id d.id (ds ++ (d ∷ [])) ≡ true
  unfolding has_id
  has_id-last d [] = rw (same_text_refl d.id)
  has_id-last d (e ∷ ds) = elim (Bool-cases (same_text e.id d.id)) [
    | inl t ↦ rw t
    | inr t ↦ rw t (has_id-last d ds)
  ]

  insert-least :
      (d : Schema T) (ds : List (Schema T)) → All (λ e. d.sort ≤ e.sort) ds → insert d ds ≡ d ∷ ds
  unfolding insert
  insert-least d [] h = refl
  insert-least d (e ∷ ds) (le, h) = rw (le→leb d.sort e.sort le)

  sort_entries-sorted : (ds : List (Schema T)) → IsSorted ds → sort_entries ds ≡ ds
  unfolding sort_entries
  sort_entries-sorted [] h = refl
  sort_entries-sorted (d ∷ ds) (h, hs) = rw (sort_entries-sorted ds hs, insert-least d ds h)

  All-last :
      (P : Schema T → Type 0) (ds : List (Schema T)) (d : Schema T)
      → All P ds
      → P d
      → All P (ds ++ (d ∷ []))
  All-last P ds d h p = All-append P ds (d ∷ []) h (p, tt)

  pub IsSorted-append :
      (ds : List (Schema T)) (d : Schema T)
      → IsSorted ds
      → All (λ e. e.sort ≤ d.sort) ds
      → IsSorted (ds ++ (d ∷ []))
  IsSorted-append [] d h le = (tt, tt)
  IsSorted-append (e ∷ ds) d (h, hs) (le, les) =
      (All-last (λ x. e.sort ≤ x.sort) ds d h le, IsSorted-append ds d hs les)

  pub put_in-last :
      (d : Schema T) (ds : List (Schema T))
      → IsSorted ds
      → All (λ e. e.sort ≤ d.sort) ds
      → IsAbsent d.id ds
      → put_in d ds ≡ ds ++ (d ∷ [])
  unfolding put_in
  put_in-last d ds h le absent =
      rw (remove_id-absent d.id ds absent)
        (sort_entries-sorted (ds ++ (d ∷ [])) (IsSorted-append ds d h le))

  pub delete_in-last :
      (d : Schema T) (ds : List (Schema T))
      → IsAbsent d.id ds
      → delete_in d.id (ds ++ (d ∷ [])) ≡ ds
  unfolding delete_in
  delete_in-last d ds absent = rw (has_id-last d ds) (remove_id-last d ds absent)
