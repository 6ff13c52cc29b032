-- ===== src/Script.antt =====
-- packages/jellyfish-transaction/src/script: the words of a script and their binary form.
-- `Codes` is the one-byte words, `PushData` the words that carry data, and `OpCode` a script.
pub mod Codes
pub mod PushData
pub mod OpCode
