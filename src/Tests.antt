-- ===== src/Tests.antt =====
-- Concrete runs, and the theorems at concrete inputs. `Node` makes the platform concrete.
mod Node
mod Buffers
mod Scripts
mod Transactions
mod Messages
mod RichList
mod Network
mod Wallet
mod Crawl
mod WhaleApi
mod Indexer
mod Signature
