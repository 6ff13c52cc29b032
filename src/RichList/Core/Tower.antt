-- ===== src/RichList/Core/Tower.antt =====
-- packages/rich-list-core/src/RichListCore.ts: the crawled blocks stand one on another, from height
-- 0 on, and both ways of a round keep them so.
use jellyfishsdk.Prelude.{
  ℕ, suc, ◌≤◌, ◌<◌, ◌≡◌, arith, ap, List, [], ◌∷◌, ◌++◌, length, All, All-reverse, none, true,
  false, same_text, same_text→eq, Bool-cases, inl, inr, take,
}
use jellyfishsdk.Buffer.Hex.{Text}
use jellyfishsdk.RichList.Database.{Schema, Database, desc, put, delete, list, partition_of}
use jellyfishsdk.RichList.Database.Laws.{IsSorted, filter-all}
use jellyfishsdk.RichList.Core.{CrawledBlock, none_partition}
use jellyfishsdk.RichList.Database.Ends.{IsAbsent, IsSorted-append, put_in-last, delete_in-last}
use mathlib.Core.List.{reverse, reverse-append, reverse-reverse}

abbrev pub Entry : Type 0
Entry = Schema CrawledBlock

-- What the hash of a block commits to, its height and its previous hash, as functions of the hash.
pub record Hashes : Type 0 where
  pub height_of : Text → ℕ
  pub parent_of : Text → Text

module _ (hashes : Hashes) where
  abbrev pub StandsOn : Text → List Entry → Type 0
  StandsOn hash [] = Unit
  StandsOn hash (below ∷ rest) = hashes.parent_of hash ≡ below.id

  -- Crawled blocks, the highest one first: at each height one, on the one below.
  abbrev pub IsTower : List Entry → Type 0
  IsTower [] = Unit
  IsTower (d ∷ rest) =
      (d.sort ≡ length rest)
      × (d.payload.height ≡ length rest)
      × (d.payload.hash ≡ d.id)
      × (hashes.height_of d.id ≡ length rest)
      × StandsOn d.id rest
      × IsTower rest

  tower_sorts : (t : List Entry) → IsTower t → All (λ e. e.sort < length t) t
  tower_sorts [] h = tt
  tower_sorts (d ∷ rest) (s, hs, i, o, st, h) =
      (omega arith, weaker rest (length rest) (tower_sorts rest h))
    where
      weaker : (ds : List Entry) (n : ℕ) → All (λ e. e.sort < n) ds → All (λ e. e.sort < suc n) ds
      weaker [] n h = tt
      weaker (d ∷ ds) n (p, h) = (omega arith, weaker ds n h)

  -- A block of that height or a higher one is not in the tower.
  pub tower_other :
      (id : Text) (t : List Entry) → IsTower t → length t ≤ hashes.height_of id → IsAbsent id t
  tower_other id [] h le = tt
  tower_other id (d ∷ rest) (s, hs, i, o, st, h) le = (
    elim (Bool-cases (same_text d.id id)) [
      | inr e ↦ e
      | inl e ↦ let same = ap hashes.height_of (same_text→eq d.id id e) in absurd (omega arith)
    ],
    tower_other id rest h (omega arith),
  )

-- The database holds exactly the tower, in its one partition.
abbrev pub Holds : Database CrawledBlock → List Entry → Type 0
Holds [] t = t ≡ []
Holds ((name, ds) ∷ []) t = (name ≡ none_partition) × (ds ≡ reverse t)
Holds (p ∷ q ∷ rest) t = ⊥

reversed : (d : Entry) (t : List Entry) → reverse (d ∷ t) ≡ reverse t ++ (d ∷ [])
reversed d t = reverse-append (d ∷ []) t

pub Holds-delete :
    (db : Database CrawledBlock) (d : Entry) (t : List Entry)
    → IsAbsent d.id t
    → Holds db (d ∷ t)
    → Holds (delete d.id db) t
unfolding delete
Holds-delete [] d t absent h = cc
Holds-delete ((name, ds) ∷ []) d t absent (n, e) = (
  n,
  rw (e, reversed d t)
      (delete_in-last d (reverse t) (All-reverse (λ x. same_text x.id d.id ≡ false) t absent)),
)
Holds-delete (p ∷ q ∷ rest) d t absent h = absurd h

abbrev pub list_tip : ℕ → Database CrawledBlock → List Entry
list_tip n db =
    list (record { partition = none_partition; order = desc; limit = n; gt = none; lt = none }) db

pub list_tip-Holds :
    (n : ℕ) (db : Database CrawledBlock) (t : List Entry) → Holds db t → list_tip n db ≡ take n t
unfolding list partition_of
list_tip-Holds n [] t h =
    rw h (rw (filter-all {T = CrawledBlock} [], filter-all {T = CrawledBlock} []))
list_tip-Holds n ((name, ds) ∷ []) t (m, e) =
    rw (m, e, reverse-reverse t) (rw (filter-all t, filter-all t))
list_tip-Holds n (p ∷ q ∷ rest) t h = absurd h

module _ (hashes : Hashes) where
  tower_sorts-le :
      (d : Entry) (t : List Entry)
      → d.sort ≡ length t
      → IsTower hashes t
      → All (λ e. e.sort ≤ d.sort) t
  tower_sorts-le d t s h = rw s (below t (length t) (tower_sorts hashes t h))
    where
      below : (ds : List Entry) (n : ℕ) → All (λ e. e.sort < n) ds → All (λ e. e.sort ≤ n) ds
      below [] n h = tt
      below (e ∷ ds) n (p, h) = (omega arith, below ds n h)

  reverse_tower-IsSorted : (t : List Entry) → IsTower hashes t → IsSorted (reverse t)
  reverse_tower-IsSorted [] h = tt
  reverse_tower-IsSorted (d ∷ t) (s, hs, i, o, st, h) = rw (reversed d t) (
      IsSorted-append (reverse t) d (reverse_tower-IsSorted t h)
        (All-reverse (λ e. e.sort ≤ d.sort) t (tower_sorts-le d t s h)))

  pub Holds-put :
      (db : Database CrawledBlock) (d : Entry) (t : List Entry)
      → d.partition ≡ none_partition
      → IsTower hashes (d ∷ t)
      → Holds db t
      → Holds (put d db) (d ∷ t)
  unfolding put
  Holds-put [] d t part h e = (part, rw e (put_in-last d [] tt tt tt))
  Holds-put ((name, ds) ∷ []) d t part (s, hs, i, o, st, h) (n, e) =
      let same : same_text name d.partition ≡ true = rw (n, part) in
      rw same (
        n,
        rw (e, reversed d t)
            (put_in-last d (reverse t) (reverse_tower-IsSorted t h)
              (All-reverse (λ x. x.sort ≤ d.sort) t (tower_sorts-le d t s h))
              (All-reverse (λ x. same_text x.id d.id ≡ false) t
                (tower_other hashes d.id t h (omega arith)))),
      )
  Holds-put (p ∷ q ∷ rest) d t part h e = absurd e
