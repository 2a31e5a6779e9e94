-- ===== src/Session.antt =====
-- session.hpp and session.cpp: one client connection, as a machine that runs from one suspension to
-- the next. `World` is what the sessions share, `State` what one of them keeps.
pub mod World
pub mod Buffer
pub mod Relay
pub mod State
pub mod Status
pub mod Framing
pub mod Handle
pub mod Resume
pub mod Legs
pub mod Invariant
pub mod Accounts
pub mod Ownership
pub mod Journal
pub mod Totals
pub mod Reach
pub mod Sized
pub mod Progress
pub mod Rank
pub mod Finish
pub mod Refusal
