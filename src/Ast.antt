-- ===== src/Ast.antt =====
-- src/domain/ast: what changed between two versions of a file, as symbols.
pub mod Differ
