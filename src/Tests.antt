-- ===== src/Tests.antt =====
-- The theorems at concrete inputs, and runs of the definitions.
mod Reading
mod Lines
mod Running
mod Texts
mod Suite
mod Processes
mod Parent
mod Units
mod Traps
mod Indexes
mod Mappings
mod Walks
