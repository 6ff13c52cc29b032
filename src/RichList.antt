-- ===== src/RichList.antt =====
-- packages/rich-list-core/src/persistent: the queue of addresses and the database of one index.
pub mod Queue
pub mod Database
pub mod Core
