-- ===== src/Spiegel.antt =====
-- The reflection library but for DWARF: np/spiegel with its platform directory.
pub mod Text
pub mod Mapping
pub mod Platform
pub mod Intercept
pub mod Trap
