-- ===== src/WhaleApi/Blocks.antt =====
-- apps/whale-api/src: the list of blocks in pages (module.api/block.controller.ts,
-- module.api/_core/api.paged.response.ts, module.model/block.ts, and the query of level.database.ts).
pub mod Pages
use jellyfishsdk.Prelude.{
  ℕ, zero, suc, ◌-◌, List, [], ◌∷◌, ◌++◌, length, take, get_elem?, Bool, true, false, ◌&&◌, ltb,
  leb, ◌==◌, if◌then◌else◌, Option, none, some,
}
use jellyfishsdk.Prelude.Decimal.{decimal, all_digits, parse_int}
use jellyfishsdk.Buffer.Hex.{Text}
use mathlib.Core.Option

-- The fields of a block that the list and its pages read.
pub record Block : Type 0 where
  pub hash : Text
  pub previous_hash : Text
  pub height : ℕ

-- `/^\d+$/.test(str)`
abbrev pub is_number : Text → Bool
is_number [] = false
is_number (c ∷ cs) = all_digits (c ∷ cs)

unfoldable pub parse_height : Option Text → Option ℕ
parse_height none = none
parse_height (some str) = if is_number str then some (parse_int str) else none

-- `str.match(/^[0-f]{64}$/)`
unfoldable pub all_in_range : Text → Bool
all_in_range [] = true
all_in_range (c ∷ cs) = (leb b'0' c && leb c b'f') && all_in_range cs

unfoldable pub is_sha256_hash : Option Text → Bool
is_sha256_hash none = false
is_sha256_hash (some str) = (length str == 64) && all_in_range str

abbrev pub below : Option ℕ → Block → Bool
below none block = true
below (some lt) block = ltb block.height lt

unfoldable pub filter : (Block → Bool) → List Block → List Block
filter keep [] = []
filter keep (b ∷ bs) = if keep b then b ∷ filter keep bs else filter keep bs

-- The stream of the index of heights in descending order, which level reads from the highest key on,
-- below a bound and up to a limit.
unfoldable pub query_by_height : ℕ → Option ℕ → List Block → List Block
query_by_height limit lt blocks = take limit (filter (below lt) blocks)

pub record ApiPagedResponse (T : Type 0) : Type 0 where
  pub items : List T
  pub next : Option Text

-- `ApiPagedResponse.of`
unfoldable pub paged : {T : Type 0} → List T → ℕ → (T → Text) → ApiPagedResponse T
paged items limit next_provider = record {
  items = items;
  next =
      if (length items == limit) && (ltb 0 (length items) && ltb 0 limit)
      then Option.map next_provider (get_elem? items (limit - 1))
      else none;
}

-- `BlockController.list`
unfoldable pub list_blocks : ℕ → Option Text → List Block → ApiPagedResponse Block
list_blocks size next blocks =
    paged (query_by_height size (parse_height next) blocks) size (λ item. decimal item.height)
