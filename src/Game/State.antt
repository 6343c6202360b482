-- ===== src/Game/State.antt =====
-- src/game/game_state.h and input_buffer.h: what a battle keeps of each player, and the inputs.
use cpp_game_room.Base.{ℕ, Bool}
use cpp_game_room.Base.Int.{ℤ}
use cpp_game_room.Base.Map.{Map}

-- struct EntityState, over the type of its coordinates.
pub record EntityState (F : Type 0) : Type 0 where
  pub player_id : ℕ
  pub x : F
  pub y : F
  pub hp : ℤ
  pub alive : Bool

pub record GameState (F : Type 0) : Type 0 where
  pub frame_id : ℕ
  pub players : Map (EntityState F)

pub record InputCommand (F : Type 0) : Type 0 where
  pub player_id : ℕ
  pub input_seq : ℕ
  pub move_x : F
  pub move_y : F
  pub fire : Bool
  pub timestamp_ms : ℕ
