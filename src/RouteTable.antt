-- ===== src/RouteTable.antt =====
-- src/route_table.rs: the route table and the registry of its mutations.
pub mod Trie
pub mod Ordered
pub mod Snapshot
pub mod Tracker
pub mod Registry
