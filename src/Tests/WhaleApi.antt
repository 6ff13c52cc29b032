-- ===== src/Tests/WhaleApi.antt =====
-- apps/whale-api/src: runs, and the theorems at concrete models and blocks.
use jellyfishsdk.Prelude.{
  ℕ, zero, suc, ◌≡◌, refl, arith, List, [], ◌∷◌, length, All, true, inl, inr, none, some, same_text,
  same_text→eq, ap, sym, ◌∙◌, Bool-cases,
}
use jellyfishsdk.Prelude.Decimal.{decimal, digits, all_digits, parse_int, parse_from, is_digit}
use jellyfishsdk.Buffer.Hex.{Text}
use jellyfishsdk.WhaleApi.Database.{
  text, number, ModelIndex, ModelMapping, Store, own_key, put, delete, get, get_by_index, put_all,
  del_modified, is_index_modified, index_key,
}
use jellyfishsdk.WhaleApi.Database.View.{HasDistinctNames, HasFreeKeys, IsView}
use jellyfishsdk.WhaleApi.Database.Put.{put-IsView}
use jellyfishsdk.WhaleApi.Database.Delete.{delete-IsView}
use jellyfishsdk.WhaleApi.Blocks.{
  Block, list_blocks, query_by_height, paged, parse_height, filter, is_sha256_hash, all_in_range,
}
use jellyfishsdk.WhaleApi.Blocks.Pages.{pages, pages_lem}

record Activity : Type 0 where
  id : Text
  owner : Text
  height : ℕ

abbrev by_height : ModelIndex Activity
by_height = record { name = b'h' ∷ []; partition = λ a. number a.height; sort = none }

abbrev by_owner : ModelIndex Activity
by_owner = record {
  name = b'o' ∷ [];
  partition = λ a. text a.owner;
  sort = some (λ a. number a.height);
}

abbrev mapping : ModelMapping Activity
mapping = record { id_of = λ a. a.id; index = by_height ∷ by_owner ∷ [] }

abbrev empty : Store Activity
empty = record { root = λ id. none; indexes = λ k. none }

abbrev first : Activity
first = record { id = b'x' ∷ []; owner = b'a' ∷ []; height = 7 }

-- The same activity at another height.
abbrev moved : Activity
moved = record { id = b'x' ∷ []; owner = b'a' ∷ []; height = 12 }

abbrev name_of : ModelIndex Activity → Text
name_of i = i.name

two_names : name_of by_height ≡ name_of by_owner → ⊥
two_names e = ground (arith)

mapping-HasDistinctNames : HasDistinctNames mapping
mapping-HasDistinctNames i j (inl p) (inl q) e = p ∙ sym q
mapping-HasDistinctNames i j (inl p) (inr (inl q)) e =
    absurd (two_names (sym (ap name_of p) ∙ e ∙ ap name_of q))
mapping-HasDistinctNames i j (inr (inl p)) (inl q) e =
    absurd (two_names (sym (ap name_of q) ∙ sym e ∙ ap name_of p))
mapping-HasDistinctNames i j (inr (inl p)) (inr (inl q)) e = p ∙ sym q
mapping-HasDistinctNames i j (inr (inr p)) q e = absurd p
mapping-HasDistinctNames i j (inl p) (inr (inr q)) e = absurd q
mapping-HasDistinctNames i j (inr (inl p)) (inr (inr q)) e = absurd q

empty-IsView : IsView mapping empty
empty-IsView = record {
  ids = λ id m h. cc;
  complete = λ i m at h. cc;
  sound = λ i k m at named h. cc;
}

empty-HasFreeKeys : HasFreeKeys mapping first empty
empty-HasFreeKeys i other at h e = cc

abbrev one : Store Activity
one = put mapping first empty

one-IsView :
    IsView mapping one
    × (get (b'x' ∷ []) one ≡ some first)
    × All
        (λ i.
          get_by_index i (i.partition first) (own_key i.sort (i.partition first) first) one
          ≡ some first)
        mapping.index
one-IsView = put-IsView mapping first empty mapping-HasDistinctNames empty-IsView empty-HasFreeKeys

-- The key that the activity has left is gone, and the new one finds it.
moved_keys :
    (get_by_index by_height (number 7) (number 7) (put mapping moved one) ≡ none)
    × (get_by_index by_height (number 12) (number 12) (put mapping moved one) ≡ some moved)
unfolding put get_by_index put_all del_modified is_index_modified index_key
moved_keys = (refl, refl)

one-HasFreeKeys : HasFreeKeys mapping moved one
unfolding put
one-HasFreeKeys i other at h e = elim (Bool-cases (same_text (b'x' ∷ []) other.id)) [
  | inl t ↦ sym (same_text→eq (b'x' ∷ []) other.id t)
  | inr t ↦ cc (let later = rw t at h in later)
]

put-IsView_example :
    IsView mapping (put mapping moved one)
    × (get (b'x' ∷ []) (put mapping moved one) ≡ some moved)
    × All
        (λ i.
          get_by_index i
            (i.partition moved)
            (own_key i.sort (i.partition moved) moved)
            (put mapping moved one)
          ≡ some moved)
        mapping.index
put-IsView_example =
    put-IsView mapping moved one mapping-HasDistinctNames one-IsView.0 one-HasFreeKeys

delete-IsView_example :
    IsView mapping (delete mapping (b'x' ∷ []) one)
    × (get (b'x' ∷ []) (delete mapping (b'x' ∷ []) one) ≡ none)
    × All
        (λ i.
          get_by_index i
            (i.partition first)
            (own_key i.sort (i.partition first) first)
            (delete mapping (b'x' ∷ []) one)
          ≡ none)
        mapping.index
delete-IsView_example =
    delete-IsView mapping first one mapping-HasDistinctNames one-IsView.0 one-IsView.1

abbrev block : ℕ → Block
block h = record { hash = b'b' ∷ h ∷ []; previous_hash = []; height = h }

abbrev blocks : List Block
blocks = block 103 ∷ block 102 ∷ block 99 ∷ block 7 ∷ block 0 ∷ []

second_page :
    list_blocks 2 (some (decimal 102)) blocks
    ≡ record { items = block 99 ∷ block 7 ∷ []; next = some (b'7' ∷ []) }
unfolding list_blocks query_by_height paged parse_height filter decimal digits all_digits is_digit
    parse_int parse_from
second_page = refl

pages_lem_example : pages (suc (length blocks)) 2 none blocks ≡ some blocks
pages_lem_example = pages_lem 2 blocks (omega arith) (omega arith)

-- The range of the pattern from 0 to f has G in it: a text of 64 of them counts as a hash.
abbrev letters : ℕ → Text
letters zero = []
letters (suc n) = b'G' ∷ letters n

not_hex : is_sha256_hash (some (letters 64)) ≡ true
unfolding is_sha256_hash all_in_range
not_hex = refl
