-- ===== src/Signal.antt =====
-- util-src/signal.c: `util.signal`.
pub mod Hook
pub mod Handlers
pub mod Fd
