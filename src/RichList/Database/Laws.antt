-- ===== src/RichList/Database/Laws.antt =====
-- packages/rich-list-core/src/persistent/SingleIndexDb.ts: partitions are sorted, and a listing in
-- descending order has the greatest entries.
use jellyfishsdk.Prelude.{
  ℕ, zero, suc, ◌≤◌, ◌≡◌, refl, arith, List, [], ◌∷◌, ◌++◌, take, drop, All, none,
}
use jellyfishsdk.Prelude.{true, leb, same_text, Bool-cases, inl, inr}
use jellyfishsdk.Buffer.Hex.{Text}
use jellyfishsdk.RichList.Database.{
  Schema, Database, FindOptions, desc, has_id, remove_id, drop_last, insert, sort_entries, put_in,
  put, delete_in, delete, partition_of, filter, list,
}
use jellyfishsdk.Prelude.{
  All-append, All-reverse, ap, sym, ◌∙◌, subst, length, length-reverse, take-drop, if◌then◌else◌,
}
use mathlib.Core.List.{reverse, reverse-append, Perm, reverse_perm}

-- The options of a listing in descending order without bounds.
abbrev pub greatest : Text → ℕ → FindOptions
greatest name n = record { partition = name; order = desc; limit = n; gt = none; lt = none }

module _ {T : Type 0} where
  abbrev pub IsSorted : List (Schema T) → Type 0
  IsSorted [] = Unit
  IsSorted (d ∷ ds) = All (λ e. d.sort ≤ e.sort) ds × IsSorted ds

  All-le :
      (m n : ℕ) (ds : List (Schema T)) → m ≤ n → All (λ e. n ≤ e.sort) ds → All (λ e. m ≤ e.sort) ds
  All-le m n [] le h = tt
  All-le m n (d ∷ ds) le (h, hs) = (omega arith, All-le m n ds le hs)

  All-insert :
      (m : ℕ) (d : Schema T) (ds : List (Schema T))
      → m ≤ d.sort
      → All (λ e. m ≤ e.sort) ds
      → All (λ e. m ≤ e.sort) (insert d ds)
  unfolding insert
  All-insert m d [] le h = (le, tt)
  All-insert m d (e ∷ ds) le (h, hs) = elim (Bool-cases (leb d.sort e.sort)) [
    | inl t ↦ rw t (le, (h, hs))
    | inr t ↦ rw t (h, All-insert m d ds le hs)
  ]

  insert-IsSorted : (d : Schema T) (ds : List (Schema T)) → IsSorted ds → IsSorted (insert d ds)
  unfolding insert
  insert-IsSorted d [] h = (tt, tt)
  insert-IsSorted d (e ∷ ds) (h, hs) = elim (Bool-cases (leb d.sort e.sort)) [
    | inl t ↦
        let le : d.sort ≤ e.sort = ground arith in
        rw t ((le, All-le d.sort e.sort ds le h), (h, hs))
    | inr t ↦
        let le : e.sort ≤ d.sort = ground arith in
        rw t (All-insert e.sort d ds le h, insert-IsSorted d ds hs)
  ]

  sort_entries-IsSorted : (ds : List (Schema T)) → IsSorted (sort_entries ds)
  unfolding sort_entries
  sort_entries-IsSorted [] = tt
  sort_entries-IsSorted (d ∷ ds) = insert-IsSorted d (sort_entries ds) (sort_entries-IsSorted ds)

  All-remove_id :
      (m : ℕ) (id : Text) (ds : List (Schema T))
      → All (λ e. m ≤ e.sort) ds
      → All (λ e. m ≤ e.sort) (remove_id id ds)
  unfolding remove_id
  All-remove_id m id [] h = tt
  All-remove_id m id (d ∷ ds) (h, hs) = elim (Bool-cases (same_text d.id id)) [
    | inl t ↦ rw t hs
    | inr t ↦ rw t (h, All-remove_id m id ds hs)
  ]

  remove_id-IsSorted : (id : Text) (ds : List (Schema T)) → IsSorted ds → IsSorted (remove_id id ds)
  unfolding remove_id
  remove_id-IsSorted id [] h = tt
  remove_id-IsSorted id (d ∷ ds) (h, hs) = elim (Bool-cases (same_text d.id id)) [
    | inl t ↦ rw t hs
    | inr t ↦ rw t (All-remove_id d.sort id ds h, remove_id-IsSorted id ds hs)
  ]

  All-drop_last :
      (m : ℕ) (ds : List (Schema T))
      → All (λ e. m ≤ e.sort) ds
      → All (λ e. m ≤ e.sort) (drop_last ds)
  unfolding drop_last
  All-drop_last m [] h = tt
  All-drop_last m (d ∷ []) h = tt
  All-drop_last m (d ∷ e ∷ ds) (h, hs) = (h, All-drop_last m (e ∷ ds) hs)

  drop_last-IsSorted : (ds : List (Schema T)) → IsSorted ds → IsSorted (drop_last ds)
  unfolding drop_last
  drop_last-IsSorted [] h = tt
  drop_last-IsSorted (d ∷ []) h = tt
  drop_last-IsSorted (d ∷ e ∷ ds) (h, hs) =
      (All-drop_last d.sort (e ∷ ds) h, drop_last-IsSorted (e ∷ ds) hs)

  delete_in-IsSorted : (id : Text) (ds : List (Schema T)) → IsSorted ds → IsSorted (delete_in id ds)
  unfolding delete_in
  delete_in-IsSorted id ds h = elim (Bool-cases (has_id id ds)) [
    | inl t ↦ rw t (remove_id-IsSorted id ds h)
    | inr t ↦ rw t (drop_last-IsSorted ds h)
  ]

  -- Every partition is sorted.
  abbrev pub IsDatabase : Database T → Type 0
  IsDatabase db = All (λ p. IsSorted p.1) db

  put-IsDatabase : (entry : Schema T) (db : Database T) → IsDatabase db → IsDatabase (put entry db)
  unfolding put put_in
  put-IsDatabase entry [] h = (sort_entries-IsSorted (remove_id entry.id [] ++ (entry ∷ [])), tt)
  put-IsDatabase entry ((name, ds) ∷ rest) (h, hs) =
      elim (Bool-cases (same_text name entry.partition)) [
        | inl t ↦ rw t (sort_entries-IsSorted (remove_id entry.id ds ++ (entry ∷ [])), hs)
        | inr t ↦ rw t (h, put-IsDatabase entry rest hs)
      ]

  delete-IsDatabase : (id : Text) (db : Database T) → IsDatabase db → IsDatabase (delete id db)
  unfolding delete
  delete-IsDatabase id [] h = tt
  delete-IsDatabase id ((name, ds) ∷ rest) (h, hs) =
      (delete_in-IsSorted id ds h, delete-IsDatabase id rest hs)

  partition_of-IsSorted :
      (name : Text) (db : Database T) → IsDatabase db → IsSorted (partition_of name db)
  unfolding partition_of
  partition_of-IsSorted name [] h = tt
  partition_of-IsSorted name ((other, ds) ∷ rest) (h, hs) =
      elim (Bool-cases (same_text other name)) [
        | inl t ↦ rw t h
        | inr t ↦ rw t (partition_of-IsSorted name rest hs)
      ]

  -- Both operations keep every partition sorted.
  pub database-IsDatabase :
      (entry : Schema T) (id : Text) (db : Database T)
      → IsDatabase db
      → IsDatabase (put entry db) × IsDatabase (delete id db)
  database-IsDatabase entry id db h = (put-IsDatabase entry db h, delete-IsDatabase id db h)

  abbrev pub IsDescending : List (Schema T) → Type 0
  IsDescending [] = Unit
  IsDescending (d ∷ ds) = All (λ e. e.sort ≤ d.sort) ds × IsDescending ds

  IsDescending-append :
      (ds : List (Schema T)) (x : Schema T)
      → IsDescending ds
      → All (λ e. x.sort ≤ e.sort) ds
      → IsDescending (ds ++ (x ∷ []))
  IsDescending-append [] x h le = (tt, tt)
  IsDescending-append (d ∷ ds) x (h, hs) (le, les) =
      (All-append (λ e. e.sort ≤ d.sort) ds (x ∷ []) h (le, tt), IsDescending-append ds x hs les)

  reverse-IsDescending : (ds : List (Schema T)) → IsSorted ds → IsDescending (reverse ds)
  reverse-IsDescending [] h = tt
  reverse-IsDescending (d ∷ ds) (h, hs) = rw (reverse-append (d ∷ []) ds) (
      IsDescending-append (reverse ds) d (reverse-IsDescending ds hs)
        (All-reverse (λ e. d.sort ≤ e.sort) ds h))

  All-drop : (P : Schema T → Type 0) (n : ℕ) (ds : List (Schema T)) → All P ds → All P (drop n ds)
  All-drop P zero ds h = h
  All-drop P (suc n) [] h = tt
  All-drop P (suc n) (d ∷ ds) (h, hs) = All-drop P n ds hs

  taken_above :
      (n : ℕ) (ds : List (Schema T))
      → IsDescending ds
      → All (λ x. All (λ y. y.sort ≤ x.sort) (drop n ds)) (take n ds)
  taken_above zero ds h = tt
  taken_above (suc n) [] h = tt
  taken_above (suc n) (d ∷ ds) (h, hs) =
      (All-drop (λ y. y.sort ≤ d.sort) n ds h, taken_above n ds hs)

  pub filter-all : (ds : List (Schema T)) → filter (λ d. true) ds ≡ ds
  unfolding filter
  filter-all [] = refl
  filter-all (d ∷ ds) = ap (λ es. d ∷ es) (filter-all ds)

  All-take : (P : Schema T → Type 0) (n : ℕ) (ds : List (Schema T)) → All P ds → All P (take n ds)
  All-take P zero ds h = tt
  All-take P (suc n) [] h = tt
  All-take P (suc n) (d ∷ ds) (h, hs) = (h, All-take P n ds hs)

  take-IsDescending : (n : ℕ) (ds : List (Schema T)) → IsDescending ds → IsDescending (take n ds)
  take-IsDescending zero ds h = tt
  take-IsDescending (suc n) [] h = tt
  take-IsDescending (suc n) (d ∷ ds) (h, hs) =
      (All-take (λ e. e.sort ≤ d.sort) n ds h, take-IsDescending n ds hs)

  length-take :
      (n : ℕ) (ds : List (Schema T))
      → length (take n ds) ≡ (if leb n (length ds) then n else length ds)
  length-take zero ds = ground arith
  length-take (suc n) [] = ground arith
  length-take (suc n) (d ∷ ds) = ground (arith, length-take n ds)

  -- In descending order without bounds, a listing of a database with sorted partitions is in
  -- descending order and, with the entries that are not listed, a rearrangement of the partition:
  -- each listed entry is at least as great as each of the others. As many are listed as the limit
  -- allows, or the partition has.
  pub list-top :
      (name : Text) (n : ℕ) (db : Database T)
      → IsDatabase db
      → (others : List (Schema T)) × Perm
          (list (greatest name n) db ++ others)
          (partition_of name db)
        × IsDescending (list (greatest name n) db)
        × All (λ x. All (λ y. y.sort ≤ x.sort) others) (list (greatest name n) db)
        × (length (list (greatest name n) db)
            ≡ (if leb n (length (partition_of name db)) then n else length (partition_of name db)))
  unfolding list
  list-top name n db h =
      let ds = partition_of name db in
      let falling = reverse-IsDescending ds (partition_of-IsSorted name db h) in
      rw (filter-all (reverse ds), filter-all (reverse ds))
        (
          drop n (reverse ds),
          subst (λ xs. Perm xs ds) (sym (take-drop n (reverse ds))) (reverse_perm ds),
          take-IsDescending n (reverse ds) falling,
          taken_above n (reverse ds) falling,
          length-take n (reverse ds) ∙ ap (λ l. if leb n l then n else l) (length-reverse ds),
        )
