-- ===== src/Tests.antt =====
-- The theorems at concrete inputs, and the inputs: logs, a counter, tables, windows, paths, a registry,
-- frames, a system and a store.
mod Counter
mod Logs
mod Actors
mod Routes
mod Nodes
mod Registries
mod Wires
mod Systems
mod Stores
mod Peers
mod Links
mod Watches
