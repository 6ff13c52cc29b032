-- ===== src/WhaleApi.antt =====
-- apps/whale-api/src: the database of models and its indexes, the pages of the blocks, and the
-- indexing of blocks with its recovery.
pub mod Database
pub mod Blocks
pub mod Indexer
