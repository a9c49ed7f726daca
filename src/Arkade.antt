-- ===== src/Arkade.antt =====
-- The script machine of pkg/arkade.
pub mod Result
pub mod Ensures
pub mod ScriptNum
pub mod Stack
pub mod Tokenizer
pub mod Packet
pub mod ComputeLimits
pub mod Machine
pub mod Vm
mod Examples
