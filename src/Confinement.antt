-- ===== src/Confinement.antt =====
-- scripts/replay-confinement-audit.py: the audit of the source text of the replay entry point.
-- Lexer blanks out what is no code, Imports reads the `@import` calls, Policy has the lists of the
-- script, Patterns its regular expressions, and Audit the checks; Tests has examples.
pub mod Lexer
pub mod Policy
pub mod Imports
pub mod Patterns
pub mod Audit
mod Tests
