-- ===== src/Examples.antt =====
-- Runs of the definitions on small inputs, and the theorems applied where their hypotheses hold.
pub mod Fat
pub mod Boot
pub mod Calendar
pub mod Slices
pub mod Blocks
pub mod Entries
pub mod Names
pub mod Windows
pub mod Loops
pub mod Volumes
pub mod Files
pub mod Mounts
