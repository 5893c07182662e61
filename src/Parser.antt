-- ===== src/Parser.antt =====
-- pkg/parser/parser.go: annotated Makefiles to recipes.
pub mod Annotation
pub mod Target
pub mod Params
pub mod Hints
pub mod Lines
pub mod Files
pub mod Print
