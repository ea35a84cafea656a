-- ===== src/Tests.antt =====
-- Runs of the theorems at concrete inputs.
pub mod Queue
pub mod Table
pub mod Getfile
pub mod Sessions
pub mod Workers
pub mod Sorting
pub mod Cache
pub mod Proxy
pub mod Download
pub mod Service
pub mod Remote
