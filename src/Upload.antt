-- ===== src/Upload.antt =====
-- portal/scripts/airflow-bridge.py: the trigger of a conversion after an upload.
pub mod Names
pub mod Trigger
pub mod Owner
pub mod Shared
mod Tests
