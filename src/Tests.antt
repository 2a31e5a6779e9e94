-- ===== src/Tests.antt =====
-- The program on concrete inputs: two backends with one virtual node each.
pub mod Breaker
pub mod Ring
pub mod RateLimiter
pub mod Session
pub mod Printing
pub mod Server
pub mod Process
pub mod Main
