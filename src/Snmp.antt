-- ===== src/Snmp.antt =====
-- server/printers/snmp.py: SNMP messages over the BER codec, the exchange with its checks, and the
-- walk of a table. An OID is the list of its arcs, a parsed answer a dictionary in insertion order.
pub mod Dict
pub mod Message
pub mod Varbinds
pub mod Roundtrip
pub mod Exchange
pub mod Client
pub mod Walk
mod Examples
