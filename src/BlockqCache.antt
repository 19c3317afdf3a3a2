-- ===== src/BlockqCache.antt =====
-- vllm_exl3_plugin/blockq_cache.py: the on-disk cache of encoded embeddings.
pub mod Pile
pub mod Evict
pub mod Entries
pub mod Whole
