-- ===== src/Offload.antt =====
-- vllm_exl3_plugin/cpu_offload.py: which quantized weights stay in host memory, where each tensor of a
-- checkpoint goes as it loads, and the window that prefill copies a layer's experts into.
pub mod State
pub mod Dense
pub mod Experts
pub mod Staging
pub mod Rows
pub mod Deliver
pub mod Report
pub mod Budget
pub mod Load
pub mod Window
