-- ===== src/Tp.antt =====
-- vllm_exl3_plugin/tp.py: which slice of each EXL3 tensor a tensor-parallel rank takes.
pub mod Shard
pub mod Rebuild
