-- ===== src/Examples.antt =====
-- Theorems at concrete inputs: a host whose daemon answers every request alike.
pub mod Node
pub mod Operations
pub mod Containers
pub mod Deploy
pub mod Network
pub mod Disks
pub mod Agent
pub mod Calls
pub mod Enrollment
pub mod Goroutines
pub mod Rounds
