-- ===== src/WhaleApi/Blocks/Pages.antt =====
-- apps/whale-api/src/module.api/block.controller.ts: the pages of the list of blocks, one after
-- another, are the list.
use jellyfishsdk.Prelude.{
  ℕ, zero, suc, ◌-◌, ◌<◌, ◌≡◌, refl, arith, sym, ap, ◌∙◌, subst, List, [], ◌∷◌, ◌++◌, length, take,
  drop, get_elem?, All, Bool, true, false, ltb, if◌then◌else◌, Bool-cases, inl, inr, ◌⊎◌, Option,
  none, some, lt→ltb, le→ltb, eq→==, ne→==, append-nil, take-drop,
}
use jellyfishsdk.Prelude.Decimal.{decimal, all_digits}
use jellyfishsdk.Prelude.Decimal.RoundTrip.{decimal-cons, parse_int-decimal, decimal-all_digits}
use jellyfishsdk.Buffer.Hex.{Text}
use jellyfishsdk.WhaleApi.Blocks.{
  Block, is_number, parse_height, below, filter, query_by_height, paged, list_blocks,
}

-- What the index of heights holds, from the highest block on.
abbrev pub IsDescending : List Block → Type 0
IsDescending [] = Unit
IsDescending (b ∷ bs) = All (λ c. c.height < b.height) bs × IsDescending bs

-- A page before the pages that follow it, where these end.
abbrev page_then : List Block → Option (List Block) → Option (List Block)
page_then items none = none
page_then items (some rest) = some (items ++ rest)

abbrev rest_of : Option Text → (Text → Option (List Block)) → Option (List Block)
rest_of none more = some []
rest_of (some token) more = more token

-- The blocks of all pages from a token on, by the token of each page for the next one, where a page
-- without a token comes within a number of pages.
unfoldable pub pages : ℕ → ℕ → Option Text → List Block → Option (List Block)
pages zero size next blocks = none
pages (suc fuel) size next blocks =
    let page = list_blocks size next blocks in
    page_then page.items (rest_of page.next (λ token. pages fuel size (some token) blocks))

is_number-decimal : (n : ℕ) → is_number (decimal n) ≡ true
is_number-decimal n =
    let (c, cs, e) = decimal-cons n in
    rw e (subst (λ t. all_digits t ≡ true) e (decimal-all_digits n))

parse_height-decimal : (n : ℕ) → parse_height (some (decimal n)) ≡ some n
unfolding parse_height
parse_height-decimal n = rw (is_number-decimal n, parse_int-decimal n)

filter-filter :
    (lt : Option ℕ) (h : ℕ) (bs : List Block)
    → ((b : Block) → ltb b.height h ≡ true → below lt b ≡ true)
    → filter (below (some h)) (filter (below lt) bs) ≡ filter (below (some h)) bs
unfolding filter
filter-filter lt h [] lower = refl
filter-filter lt h (b ∷ bs) lower = elim (Bool-cases (below lt b)) [
  | inl e ↦ rw e (ap (λ r. if ltb b.height h then b ∷ r else r) (filter-filter lt h bs lower))
  | inr e ↦ rw e (filter-filter lt h bs lower ∙ sym (skipped e (Bool-cases (ltb b.height h))))
]
  where
    skipped :
        below lt b ≡ false
        → (ltb b.height h ≡ true) ⊎ (ltb b.height h ≡ false)
        → (if ltb b.height h then b ∷ filter (below (some h)) bs else filter (below (some h)) bs)
          ≡ filter (below (some h)) bs
    skipped e (inl t) = absurd (cc (sym e ∙ lower b t))
    skipped e (inr t) = rw t

All-filter : (p : Block → Bool) (bs : List Block) → All (λ b. p b ≡ true) (filter p bs)
unfolding filter
All-filter p [] = tt
All-filter p (b ∷ bs) = elim (Bool-cases (p b)) [
  | inl t ↦ rw t (t, All-filter p bs)
  | inr t ↦ rw t (All-filter p bs)
]

filter-lower :
    (h : ℕ) (bs : List Block) → All (λ b. b.height < h) bs → filter (below (some h)) bs ≡ bs
unfolding filter
filter-lower h [] l = refl
filter-lower h (b ∷ bs) (p, l) = rw (lt→ltb b.height h p, filter-lower h bs l)

All-get_elem? :
    (P : Block → Type 0) (n : ℕ) (bs : List Block) (b : Block)
    → All P bs
    → get_elem? bs n ≡ some b
    → P b
All-get_elem? P n [] b h e = cc
All-get_elem? P zero (c ∷ bs) b (p, h) e = subst P (cc e) p
All-get_elem? P (suc n) (c ∷ bs) b (p, h) e = All-get_elem? P n bs b h e

-- Below the last one of the first blocks stand the others.
filter-drop :
    (n : ℕ) (bs : List Block) (last : Block)
    → IsDescending bs
    → get_elem? bs n ≡ some last
    → filter (below (some last.height)) bs ≡ drop (suc n) bs
unfolding filter
filter-drop n [] last h e = cc
filter-drop zero (b ∷ bs) last (l, h) e =
    let same : b ≡ last = cc e in
    subst (λ x. filter (below (some x.height)) (b ∷ bs) ≡ bs) same
      (rw (le→ltb b.height b.height (omega arith)) (filter-lower b.height bs l))
filter-drop (suc n) (b ∷ bs) last (l, h) e =
    let less : last.height < b.height = All-get_elem? (λ c. c.height < b.height) n bs last l e in
    rw (le→ltb b.height last.height (omega arith)) (filter-drop n bs last h e)

filter-IsDescending :
    (p : Block → Bool) (bs : List Block) → IsDescending bs → IsDescending (filter p bs)
unfolding filter
filter-IsDescending p [] h = tt
filter-IsDescending p (b ∷ bs) (l, h) = elim (Bool-cases (p b)) [
  | inl t ↦ rw t (All-kept bs l, filter-IsDescending p bs h)
  | inr t ↦ rw t (filter-IsDescending p bs h)
]
  where
    All-kept :
        (cs : List Block)
        → All (λ c. c.height < b.height) cs
        → All (λ c. c.height < b.height) (filter p cs)
    All-kept [] l = tt
    All-kept (c ∷ cs) (q, l) = elim (Bool-cases (p c)) [
      | inl t ↦ rw t (q, All-kept cs l)
      | inr t ↦ rw t (All-kept cs l)
    ]

lower_bound :
    (lt : Option ℕ) (last b : Block)
    → below lt last ≡ true
    → ltb b.height last.height ≡ true
    → below lt b ≡ true
lower_bound none last b h e = refl
lower_bound (some lt) last b h e = ground arith

-- What stands below the last block of a page is what stood behind the page.
below_page :
    (lt : Option ℕ) (n : ℕ) (blocks : List Block) (last : Block)
    → IsDescending blocks
    → get_elem? (filter (below lt) blocks) n ≡ some last
    → filter (below (some last.height)) blocks ≡ drop (suc n) (filter (below lt) blocks)
below_page lt n blocks last h e =
    let bounded =
      All-get_elem? (λ b. below lt b ≡ true) n (filter (below lt) blocks) last
        (All-filter (below lt) blocks) e in
    sym (filter-filter lt last.height blocks (λ b. lower_bound lt last b bounded))
    ∙ filter-drop n (filter (below lt) blocks) last (filter-IsDescending (below lt) blocks h) e

-- A page is full, and has a last block, or it is all there is.
page_cases :
    (n : ℕ) (bs : List Block)
    → ((last : Block) × (length (take (suc n) bs) ≡ suc n)
        × (get_elem? (take (suc n) bs) n ≡ some last)
        × (get_elem? bs n ≡ some last)
        × (length (drop (suc n) bs) < length bs))
      ⊎ ((length (take (suc n) bs) < suc n) × (take (suc n) bs ≡ bs))
page_cases n [] = inr (omega arith, refl)
page_cases zero (b ∷ bs) = inl (b, refl, refl, refl, omega arith)
page_cases (suc n) (b ∷ bs) = elim (page_cases n bs) [
  | inl (last, full, at, there, less) ↦ inl (last, ap suc full, at, there, omega arith)
  | inr (short, all) ↦ inr (omega arith, ap (λ cs. b ∷ cs) all)
]

paged_full :
    (n : ℕ) (items : List Block) (provider : Block → Text) (last : Block)
    → length items ≡ suc n
    → get_elem? items n ≡ some last
    → (paged items (suc n) provider).next ≡ some (provider last)
unfolding paged
paged_full n items provider last e at =
    let index : suc n - 1 ≡ n = omega arith in
    rw (e, eq→== (suc n) (suc n) refl, lt→ltb 0 (suc n) (omega arith), index, at)

paged_short :
    (n : ℕ) (items : List Block) (provider : Block → Text)
    → length items < suc n
    → (paged items (suc n) provider).next ≡ none
unfolding paged
paged_short n items provider lt = rw (ne→== (length items) (suc n) (λ e. absurd (omega (arith, e))))

after_page :
    (lt : Option ℕ) (n : ℕ) (blocks : List Block) (last : Block)
    → IsDescending blocks
    → get_elem? (filter (below lt) blocks) n ≡ some last
    → filter (below (parse_height (some (decimal last.height)))) blocks
      ≡ drop (suc n) (filter (below lt) blocks)
after_page lt n blocks last h e =
    rw (parse_height-decimal last.height) (below_page lt n blocks last h e)

pages_from :
    (fuel n : ℕ) (next : Option Text) (blocks : List Block)
    → IsDescending blocks
    → length (filter (below (parse_height next)) blocks) < fuel
    → pages fuel (suc n) next blocks ≡ some (filter (below (parse_height next)) blocks)
unfolding pages list_blocks query_by_height paged
pages_from zero n next blocks h lt = absurd (omega arith)
pages_from (suc fuel) n next blocks h lt =
    let bs = filter (below (parse_height next)) blocks in
    let more : Text → Option (List Block) = λ token. pages fuel (suc n) (some token) blocks in
    elim (page_cases n bs) [
      | inl (last, full, at, there, less) ↦
          let later = after_page (parse_height next) n blocks last h there in
          ap (λ t. page_then (take (suc n) bs) (rest_of t more))
            (paged_full n (take (suc n) bs) (λ item. decimal item.height) last full at)
          ∙ ap (page_then (take (suc n) bs)) (
              pages_from fuel n (some (decimal last.height)) blocks h
                (let same = ap length later in omega arith)
              ∙ ap some later)
          ∙ ap some (take-drop (suc n) bs)
      | inr (short, all) ↦
          ap (λ t. page_then (take (suc n) bs) (rest_of t more))
            (paged_short n (take (suc n) bs) (λ item. decimal item.height) short)
          ∙ ap some (append-nil (take (suc n) bs) ∙ all)
    ]

filter-all : (bs : List Block) → filter (below none) bs ≡ bs
unfolding filter
filter-all [] = refl
filter-all (b ∷ bs) = ap (λ cs. b ∷ cs) (filter-all bs)

-- The pages of the list of blocks, each fetched by the token of the one before it, end with a page
-- that has no token, after at most one page more than there are blocks, and are together the whole
-- list, in its order, whatever the size of a page, if it is not 0.
pub pages_lem :
    (size : ℕ) (blocks : List Block)
    → 0 < size
    → IsDescending blocks
    → pages (suc (length blocks)) size none blocks ≡ some blocks
unfolding parse_height
pages_lem zero blocks pos h = absurd (omega arith)
pages_lem (suc n) blocks pos h =
    pages_from (suc (length blocks)) n none blocks h
      (let same = ap length (filter-all blocks) in omega arith)
    ∙ ap some (filter-all blocks)
