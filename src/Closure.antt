-- ===== src/Closure.antt =====
-- The dependency closures of scripts/product-no-libsolv-fetch-audit.py and
-- scripts/public-zig-api-audit.py: both take packages from a list until it is empty. Worklist is the
-- loop, Pins reads the hashes out of a manifest, Product and PublicApi are the two uses of it.
pub mod Worklist
pub mod Pins
pub mod Product
pub mod PublicApi
mod Tests
