-- ===== src/Samples.antt =====
-- Concrete values of what the development takes as parameters: numbers for Python's floats and a
-- graph for networkx, on which the theorems are tried.
pub mod Fixed
pub mod Shop
pub mod Listed
