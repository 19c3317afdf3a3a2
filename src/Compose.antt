-- ===== src/Compose.antt =====
-- tools/compose_checkpoint.py: modules of a checkpoint replaced by other checkpoints' copies of them.
pub mod Modules
pub mod Write
pub mod Ledger
pub mod Whole
pub mod Bytes
pub mod Copied
pub mod Rules
pub mod Lookups
pub mod Resolved
pub mod Selected
pub mod Ranges
pub mod Compare
pub mod Sides
pub mod Checks
pub mod Given
