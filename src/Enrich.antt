-- ===== src/Enrich.antt =====
-- platform/13-openmetadata-config/enrich_from_dbt_meta.py: what dbt's meta adds to the tables of
-- OpenMetadata. `str`, `int` and the Unicode data of Python are parameters. A value that the code
-- uses as a key or a name is a text; another is taken to raise.
pub mod Tags
pub mod Columns
pub mod Extension
pub mod Refs
pub mod Writes
pub mod Patch
mod Tests
