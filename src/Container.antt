-- ===== src/Container.antt =====
-- clia/clia/container: the containers.
pub mod FixedBuffer
pub mod CircularBuffer
pub mod BoundedBlockingQueue
pub mod FixedOStream
