-- ===== src/Tests.antt =====
-- Runs on concrete inputs: a small API server (World), and the theorems applied in it.
pub mod World
pub mod Reconciler
pub mod Values
pub mod Objects
pub mod Runs
pub mod Components
pub mod Cycles
pub mod Deployed
pub mod Unstructured
