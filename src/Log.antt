-- ===== src/Log.antt =====
-- clia/src/log and clia/clia/log: the loggers, and the lines that they are given.
pub mod Trait
pub mod SyncLogger
pub mod AsyncLogger
pub mod Event
pub mod FileAppender
pub mod LoggerManger
pub mod Macros
pub mod Pipeline
pub mod StdoutAppender
