-- ===== src/RateLimit.antt =====
-- middleware/ratelimit.go: three rate limiters behind one interface, and the middleware over them.
pub mod Config
pub mod TokenBucket
pub mod FixedWindow
pub mod SlidingWindow
pub mod Strategies
pub mod Rules
pub mod Decisions
