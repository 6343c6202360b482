-- ===== src/Game.antt =====
-- src/game: one battle, its input buffer, the loop over battles and the settlement of a result.
pub mod Float
pub mod State
pub mod Battle
pub mod Settlement
