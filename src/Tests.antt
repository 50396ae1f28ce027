-- ===== src/Tests.antt =====
-- Tests, and the theorems at concrete inputs.
mod Reader
mod SymRuns
mod CsymRuns
mod Sort
mod CRuns
mod FixupRuns
mod DumpRuns
mod MainRuns
mod TypesRuns
mod FuncRuns
