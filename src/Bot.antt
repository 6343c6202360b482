-- ===== src/Bot.antt =====
-- bot: the load generator, whose bots play against the server over a connection each.
pub mod State
pub mod Socket
pub mod Client
pub mod Messages
pub mod Options
pub mod Manager
pub mod Steps
mod Link
mod Quiet
mod Wired
mod Moves
mod Paced
mod Handling
mod Orderly
mod Timers
mod Handlers
mod Runs
mod Examples
