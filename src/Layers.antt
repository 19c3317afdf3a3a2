-- ===== src/Layers.antt =====
-- The layer methods of quantization/linear.py and fused_moe.py: what the loader stores for a layer, by
-- rank, and what the layer checks once everything has arrived.
pub mod Store
pub mod Linear
pub mod Moe
pub mod Fused
pub mod Rejoin
pub mod Ready
pub mod Tables
pub mod Gathered
pub mod Complete
