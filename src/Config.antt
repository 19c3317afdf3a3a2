-- ===== src/Config.antt =====
-- vllm_exl3_plugin/quantization/config.py: which modules of a checkpoint are quantized, how the
-- embedding and the head are served, and which stored tensors reach them.
pub mod Storage
pub mod Names
pub mod Serving
pub mod Selection
pub mod Loading
pub mod Update
pub mod Params
pub mod Dotted
pub mod Parts
pub mod Known
pub mod Renamed
pub mod Claims
