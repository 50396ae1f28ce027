-- ===== src/Csym/Fixups.antt =====
-- csym/parse_fixups.go: the passes over the parsed types and declarations.
pub mod Replace
pub mod Slices
pub mod Duplicates
pub mod Names
