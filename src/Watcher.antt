-- ===== src/Watcher.antt =====
-- The tools of platform/19-nanitics-observatory/app/watcher.py that read signals and file tasks.
-- `json.dumps` of the answers is left out: a tool answers a JSON value; of an interpolated error
-- only the fixed part. The services are a function of the requests so far.
pub mod Checklist
pub mod Tools
pub mod Filed
pub mod Approval
pub mod Labels
mod Tests
