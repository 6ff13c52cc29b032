-- ===== src/Dftx.antt =====
-- packages/jellyfish-transaction/src/script/dftx: the messages of DeFi transactions. Each child is one
-- file of messages; `Flags` and `Fits` are shared by them.
pub mod Fits
pub mod Flags
pub mod Balance
pub mod Price
pub mod Account
pub mod Pool
pub mod Token
pub mod Vault
pub mod Oracles
pub mod Masternode
pub mod Loans
pub mod IcxOrderbook
pub mod Proposals
pub mod EvmTx
pub mod Governance
pub mod Unmapped
pub mod Message
