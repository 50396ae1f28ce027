-- ===== src/C.antt =====
-- Package c (csym/c): the C types and declarations that the symbols are translated to.
pub mod Ast
pub mod Print
pub mod Declarator
pub mod FakeTag
pub mod Leaf
pub mod Sorting
pub mod Defs
pub mod Strings
