-- ===== src/Buffer.antt =====
-- packages/jellyfish-buffer: the composable binary format.
-- `Codec` is ComposableBuffer itself, `Hex` the hex strings of Node's Buffer, `CompactSize`,
-- `VarInt`, `BitMask` and `Amounts` the number formats, and `Fields` the field composers.
pub mod Utf8
pub mod Codec
pub mod Hex
pub mod Words
pub mod CompactSize
pub mod VarInt
pub mod Amounts
pub mod BitMask
pub mod Texts
pub mod Fields
