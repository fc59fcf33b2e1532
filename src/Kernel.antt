-- ===== src/Kernel.antt =====
-- eazy_sdk/core/kernel.py: the values of an operation, the patches of them, and the plan graph.
pub mod Values
pub mod Returns
pub mod Patch
pub mod Bound
pub mod Present
pub mod Graph
pub mod Examples
