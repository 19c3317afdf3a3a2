-- ===== src/ExpertCache.antt =====
-- vllm_exl3_plugin/expert_cache.py: VRAM slots for offloaded routed experts, managed as an LRU
-- between steps.
pub mod State
pub mod Lru
pub mod Demand
pub mod Writes
pub mod Landing
pub mod Planning
pub mod Steps
pub mod Victim
pub mod Tables
pub mod Coherence
pub mod Release
pub mod Order
pub mod Plans
pub mod Landed
pub mod Frames
pub mod Sound
pub mod Run
pub mod Warm
pub mod Serve
pub mod Untouched
pub mod Ring
pub mod Overwrite
pub mod Sizing
pub mod Build
