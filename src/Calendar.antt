-- ===== src/Calendar.antt =====
-- The calendar's events, roles/desktop/files/quickshell/scripts/calendar-events.py.
pub mod Window
pub mod Text
pub mod Accounts
pub mod Sources
pub mod Visited
pub mod Google
pub mod Listing
pub mod Events
pub mod Distinct
pub mod Results
pub mod Request
pub mod Spec
pub mod History
pub mod Report
mod Tests
