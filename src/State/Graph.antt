-- ===== src/State/Graph.antt =====
-- core/state/graph.h and graph.cpp: the nodes and edges of an order by sequence id, and where the
-- AGV is. A method that changes the graph returns the new one. Log output is left out.
pub mod Element
pub mod Defs
pub mod Dump
pub mod Valid
pub mod Fits
pub mod Update
pub mod Horizon
pub mod Clean
pub mod Lookup
pub mod Join
pub mod Extend
pub mod Agv
pub mod Range
