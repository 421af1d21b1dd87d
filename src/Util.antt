-- ===== src/Util.antt =====
-- clia/src/util and clia/clia/util: the helpers.
pub mod StrFunc
pub mod Timestamp
pub mod AtomLck
pub mod CountDownLatch
pub mod Process
