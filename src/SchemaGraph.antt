-- ===== src/SchemaGraph.antt =====
-- The schema graph engine of the control plane (control-plane/schema_graph.py).
pub mod Network
pub mod Catalog
mod Tests
pub mod State
pub mod Cascade
