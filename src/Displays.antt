-- ===== src/Displays.antt =====
-- The display settings helper, roles/desktop/files/quickshell/scripts/display-settings.py.
pub mod Numbers
pub mod Keys
pub mod Entry
pub mod Document
pub mod Strict
pub mod Valid
pub mod Frame
pub mod Confirm
pub mod Saved
pub mod Stale
pub mod Kept
pub mod Calls
pub mod Shown
pub mod Overflow
mod Tests
mod Runs
pub mod Clock
pub mod Host
pub mod Lua
pub mod Store
pub mod Session
pub mod Requests
pub mod Serve
