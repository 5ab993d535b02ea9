-- ===== src/Scripts.antt =====
-- scripts/release-audit.py: what it asks of the two release scripts, whose syntax trees it walks. Syntax is
-- the tree that `ast.parse` gives, Walk is `ast.walk` with the parents of each node, Shape is `ast_shape`;
-- Imports, Process, Packager and SmokeSource are the audits.
pub mod Syntax
pub mod Walk
pub mod Shape
pub mod Imports
pub mod Process
pub mod Packager
pub mod SmokeSource
pub mod Audit
mod Tests
