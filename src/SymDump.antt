-- ===== src/SymDump.antt =====
-- The sym_dump tool (cmd/sym_dump): what it writes for a parser.
pub mod Sources
pub mod Output
pub mod Merge
pub mod Declarations
pub mod Prune
pub mod Main
