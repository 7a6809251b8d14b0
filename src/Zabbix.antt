-- ===== src/Zabbix.antt =====
-- server/zabbix/: the export of scores to a Zabbix server.
pub mod Status
pub mod Protocol
pub mod Frames
pub mod Chunks
pub mod Noise
pub mod Backoff
mod Examples
