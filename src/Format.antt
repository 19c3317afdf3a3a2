-- ===== src/Format.antt =====
-- vllm_exl3_plugin/format.py: the EXL3 on-disk format, as arithmetic over shapes and tensor names.
pub mod Consts
pub mod Widths
pub mod Shards
pub mod Fused
pub mod Spans
pub mod Blockq
pub mod Keys
