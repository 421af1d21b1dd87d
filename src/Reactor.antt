-- ===== src/Reactor.antt =====
-- clia/src/reactor and clia/clia/reactor: channels, the poller, the event loop and the pool of loops.
pub mod Channel
pub mod Epoller
pub mod EventLoop
pub mod EventLoopThreadPool
pub mod EventLoopThread
