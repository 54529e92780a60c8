-- ===== src/Downloads.antt =====
-- The download cache of the image builds, image/download_cache.py.
mod Tests
pub mod Fetch
pub mod Verified
pub mod Import
pub mod Export
pub mod Collected
pub mod Exported
pub mod Restored
pub mod Pins
pub mod Confined
pub mod Pinned
pub mod Merge
pub mod Shared
