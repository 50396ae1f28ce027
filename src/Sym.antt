-- ===== src/Sym.antt =====
-- Package sym (the files of the repository's root): the symbols of a Playstation 1 symbol file.
pub mod Kind
pub mod Class
pub mod Base
pub mod Types
pub mod Symbol
pub mod Wire
pub mod Names
pub mod File
