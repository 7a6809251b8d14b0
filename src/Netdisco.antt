-- ===== src/Netdisco.antt =====
-- server/netdisco/: the map of the network and what is read off it.
pub mod Sets
pub mod Graph
pub mod Correlation
pub mod Sorting
pub mod Changes
pub mod Fusion
mod Examples
