-- ===== src/Lib.antt =====
-- The verification library of jellyfishsdk: the binary form of DeFiChain blocks, transactions, scripts
-- and messages, the supply of its coin, the crawl and the stores of the rich list, the accounts of a
-- wallet, and the database of the whale API.
--
-- Parts, from the bottom:
--   Prelude     shared helpers: results with errors (Prelude/Results), lists over the native
--               numbers (Prelude/Lists), Boolean tests and their lemmas (Prelude/Tests), decimal
--               digits (Prelude/Decimal).
--   Platform    the third-party code that the packages build on, as interfaces: the npm package
--               smart-buffer (record SmartBuffer) and bignumber.js (record BigNumber). A section or
--               an instance argument takes them, with their documented behaviour as laws.
--   Buffer      packages/jellyfish-buffer/src. A BufferComposer is a `Codec`: a reader of the unread
--               bytes, which returns what it leaves, and a writer of the bytes it appends.
--               Composer.ts is Codec, Words, Hex, Fields and parts of the others; CompactSize.ts is
--               CompactSize, VarInt.ts is VarInt, BigNumber.ts with the composers of amounts and
--               prices is Amounts, and BitMask.ts is BitMask.
--   Script      packages/jellyfish-transaction/src/script. Codes: the one-byte words (constants.ts to
--               invalid.ts), HEX_MAPPING and numAsOPCode. PushData: data.ts. OpCode: _buffer.ts,
--               OP_CODES.fromBuffer and OP_CODES.toBuffer of mapping.ts, and dftx/index.ts.
--   Tx          packages/jellyfish-transaction/src: the types of tx.ts and the composers of
--               tx_composer.ts, one codec for each class.
--   Dftx        packages/jellyfish-transaction/src/script/dftx: the messages of DeFi transactions, a
--               child for each dftx_*.ts (Proposals and Governance are dftx_governance.ts, Unmapped
--               is dftx_unmapped.ts and dftx_misc.ts), and CDfTx with its type byte (Message).
--   Block       packages/jellyfish-block/src: block headers, and blocks with their transactions.
--   Signature   packages/jellyfish-transaction-signature/src and tx_segwit.ts of jellyfish-transaction:
--               the witnesses of the inputs of a transaction. The digests of create-hash, below
--               jellyfish-crypto, are the interface CreateHash.
--   Network     packages/jellyfish-network/src/BlockSubsidy.ts: the subsidy of blocks and the supply.
--               Reductions and Totals tie the lists of BigNumbers to natural numbers.
--   RichList    packages/rich-list-core/src: the queue and the database in memory (persistent), and the
--               crawl of RichListCore.ts over the blocks of a node (Core), which runs on that database.
--   Wallet      packages/jellyfish-wallet/src/wallet.ts: the accounts of a wallet and their discovery.
--   WhaleApi    apps/whale-api/src: the models of module.database with their indexes (Database), and the
--               list of blocks in pages (Blocks: module.api/block.controller.ts, _core/
--               api.paged.response.ts, module.model/block.ts), and the provider of blocks of module.indexer
--               (Indexer: rpc.block.provider.ts, status.ts, model/_main.ts).
--   Tests       concrete runs and the theorems at concrete inputs, over a concrete platform
--               (Tests/Node).
--
-- Correspondence. A getter and a setter of a composer are the two functions of `record_of`; the
-- composers of a class, one after another, are `▹`; a composer that looks at a field that was read
-- before it is `chain`. An exception is an `err` of Prelude/Results: where the source throws in the
-- middle of a write, the bytes written before it are lost with it. Names are those of the source in
-- snake case (fromBuffer is from_buffer, CVoutV4 is c_vout_v4, toOPCodes is to_op_codes). D is the type
-- of DeFi transactions and `dftx` their composer CDfTx, N is the type BigNumber.
--
-- Numbers. A JavaScript number that counts or indexes is a natural number, and the tests of
-- negative or fractional numbers have no counterpart; shifts and masks are written as quotients and
-- remainders. Text is the list of its code points, in
-- UTF-8 as Node's Buffer has it (Buffer/Utf8). The integers of bn.js in VarInt.ts are
-- natural numbers.
--
-- Stores. level, the store below the database, is a function of its keys. An object that keeps state
-- is the value of its field, and a method is a function from that value to its result and the new value. The asynchronous `catchUp` is a function over the list of
-- nodes that its rounds find, one for each call of itself: the node may show another chain in each. A
-- round is taken as a whole, and what it throws is an `Outcome` with the state at that point. In
-- WhaleApi/Indexer the models are any type of states and an indexer is a pair of functions on it; a
-- `Run` keeps the state at the point of a throw, and Indexer/Steps has the crashes of the process. The
-- source sets REINDEX also for a NotFoundIndexerError of an indexer half way through an invalidation, as
-- script.unspent.ts and script.aggregation.ts throw it: Indexer/Steps leaves such rounds out, and
-- Tests/Indexer shows one.
--
-- Bounds. `write_var_int` makes at most 8 digits, enough for 53 bits (the round trip shows it). The
-- loop of `read_var_int` has one round more than there are bytes, and takes a byte in each. `read_op_codes` has
-- as many rounds as there are bytes, and each takes one, and so has `read_governance_vars`. A loop that
-- is out of rounds ends in the error `out_of_fuel`, which the source does not have. The
-- reductions of a subsidy take at least 1 off in each round: one round more than the first subsidy is
-- enough.
--
-- Scripts in messages. A message holds scripts, whose words may be DeFi transactions again. The
-- messages are over a type S of scripts with its composer, so a nesting of any depth is an instance
-- of them, and no type holds all depths at once.
--
-- Not modelled: int32, toHex and toObject; the names of DeFi transactions, which are not composed;
-- the hashes that give transactions their ids; the functions OP_CODES.OP_DEFI_TX_*, which wrap a
-- message; the balances of RichListCore (calculateNext, get) and its address parser; and the packages
-- and apps on top of these (transaction builders, clients, the rest of the whale API).
pub mod Prelude
pub mod Platform
pub mod Buffer
pub mod Script
pub mod Tx
pub mod Dftx
pub mod Block
pub mod Network
pub mod RichList
pub mod Signature
pub mod Wallet
pub mod WhaleApi
pub mod Tests
