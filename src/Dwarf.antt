-- ===== src/Dwarf.antt =====
-- The DWARF debug information reader, np/spiegel/dwarf.
pub mod Reader
pub mod Abbrev
pub mod CompileUnit
pub mod Entry
pub mod Walker
pub mod LineProgram
pub mod State
pub mod LinkObject
