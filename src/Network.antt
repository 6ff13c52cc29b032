-- ===== src/Network.antt =====
-- packages/jellyfish-network/src: the subsidy of blocks.
pub mod BlockSubsidy
