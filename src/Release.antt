-- ===== src/Release.antt =====
-- scripts/release.py, scripts/release_common.py and scripts/release-smoke.py: the names of the assets
-- of a release, and the checks of an archive and of its SBOM. Version is the grammar of versions, Paths is `PurePosixPath` as far as they
-- use it.
pub mod Version
pub mod Paths
pub mod Assets
pub mod Archive
pub mod Sbom
pub mod Smoke
pub mod Trial
pub mod Sidecar
pub mod Verify
mod Tests
