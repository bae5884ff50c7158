-- ===== src/Text.antt =====
-- Numbers in base sixteen as the programs print them, and the dump of a message.
pub mod Hex
pub mod Dump
