-- ===== src/Workflow.antt =====
-- scripts/release-audit.py: the reader of workflow files and the audits of the two workflows. Values are
-- what the reader gives; Lines and Scalars read one line or one scalar, Parser is `WorkflowParser`;
-- Steps looks up jobs and steps, Release and Ci are the audits.
pub mod Values
pub mod Distinct
pub mod Lines
pub mod Scalars
pub mod Parser
pub mod Steps
pub mod Release
pub mod Ci
pub mod Samples
mod Tests
