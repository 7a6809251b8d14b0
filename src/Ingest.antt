-- ===== src/Ingest.antt =====
-- What the server does with an envelope: server/api.py takes it in, server/pipeline.py stores it and
-- evaluates the trust in its sources, server/db.py keeps the rows.
pub mod Versions
pub mod Devices
pub mod Sources
pub mod Evaluate
pub mod Pipeline
pub mod Api
mod Examples
