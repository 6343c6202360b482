-- ===== src/Service.antt =====
-- The services that join the parts: src/room/room_manager.cpp, src/match/match_service.cpp,
-- src/login/login_service.cpp and src/server/game_server.cpp, over one state.
pub mod World
pub mod Rooms
pub mod Matching
pub mod Ranking
pub mod Core
pub mod Grouping
pub mod Consistent
pub mod Requests
pub mod Served
pub mod Stored
pub mod Handlers
pub mod Sessions
pub mod Closing
pub mod Binding
pub mod Freeing
pub mod Ticks
pub mod Settling
pub mod Finished
pub mod Startup
pub mod Payout
pub mod Histories
pub mod Examples
pub mod LoginExamples
pub mod Leaving
pub mod Login
pub mod Accounts
pub mod Server
pub mod Dispatcher
