-- ===== src/Csym.antt =====
-- Package csym: the translation of symbols to C declarations.
pub mod State
pub mod Names
pub mod Tagged
pub mod Types
pub mod Tags
pub mod Lines
pub mod Funcs
pub mod Decls
pub mod Fixups
pub mod Closed
