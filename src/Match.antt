-- ===== src/Match.antt =====
-- src/match: the queue of players that wait for a room.
pub mod Queue
