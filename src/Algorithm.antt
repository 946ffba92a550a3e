-- ===== src/Algorithm.antt =====
-- algorithm/: the graph of accounts that a partition is computed on.
pub mod Graph
pub mod Clpa
pub mod Examples
