-- ===== src/Examples.antt =====
-- Tests, and each theorem that has hypotheses at a concrete input.
pub mod Frames
pub mod Heap
pub mod Queues
pub mod Memory
pub mod Processes
pub mod Services
pub mod Boot
pub mod Shell
pub mod Terminal
pub mod Strings
pub mod Network
