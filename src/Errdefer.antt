-- ===== src/Errdefer.antt =====
-- scripts/dead-errdefer-audit.py: a report of each `errdefer` in a function that returns no error.
-- Strip removes comments and literals from a line, Signature reads a function's return type, Scan
-- follows the braces; Tests has examples.
pub mod Strip
pub mod Signature
pub mod Scan
mod Tests
