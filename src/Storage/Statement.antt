-- ===== src/Storage/Statement.antt =====
-- The SQL texts that the repositories build, one constructor for each text with the values that
-- are put into it, and the rows that come back. Numbers are the numbers of their decimal texts.
use cpp_game_room.Base.{ℕ, Bool, String, List}
use cpp_game_room.Base.Int.{ℤ}

-- struct Battle of battle_repository.h.
pub record Battle : Type 0 where
  pub battle_id : ℕ
  pub room_id : ℕ
  pub winner_id : ℕ
  pub result_json : String

pub record BattlePlayerResult : Type 0 where
  pub battle_id : ℕ
  pub player_id : ℕ
  pub result : String
  pub score_delta : ℤ

pub record SettlementLog : Type 0 where
  pub settlement_id : ℕ
  pub battle_id : ℕ
  pub player_id : ℕ
  pub score_delta : ℤ

-- struct PlayerData of player_repository.h.
pub record PlayerData : Type 0 where
  pub player_id : ℕ
  pub name : String
  pub score : ℤ
  pub win_count : ℤ
  pub lose_count : ℤ

pub data Statement : Type 0 where
  start_transaction : Statement
  -- INSERT INTO battle(room_id, winner_id, result_json) VALUES(room_id, 0, '{}')
  reserve_battle : ℕ → Statement
  -- SELECT room_id, winner_id, settled FROM battle WHERE battle_id = _ FOR UPDATE
  select_battle : ℕ → Statement
  -- SELECT player_id, result, score_delta FROM battle_player_result WHERE battle_id = _
  -- ORDER BY player_id FOR UPDATE
  select_results : ℕ → Statement
  insert_battle : Battle → Statement
  insert_result : BattlePlayerResult → Statement
  insert_log : SettlementLog → Statement
  -- SELECT settlement_id FROM settlement_log WHERE battle_id = _ AND player_id = _ LIMIT 1
  select_log : ℕ → ℕ → Statement
  -- UPDATE battle SET winner_id = _, settled = 1, end_time = CURRENT_TIMESTAMP WHERE battle_id = _,
  -- of the battle and the winner.
  finish_battle : ℕ → ℕ → Statement
  -- SELECT player_id, name, score, win_count, lose_count FROM player WHERE player_id = _ LIMIT 1
  select_player : ℕ → Statement
  -- INSERT INTO player … ON DUPLICATE KEY UPDATE name = VALUES(name)
  upsert_player : PlayerData → Statement
  -- INSERT INTO player … ON DUPLICATE KEY UPDATE score = score + (_), …, of the player, the initial
  -- score, the change of the score and those of the two counts.
  upsert_score : ℕ → ℤ → ℤ → ℤ → ℤ → Statement

pub data Row : Type 0 where
  battle_row : ℕ → ℕ → ℕ → Row
  result_row : ℕ → String → ℤ → Row
  log_row : ℕ → Row
  player_row : PlayerData → Row

-- What mysql_query and the calls after it tell: an error, and whether it is a lost connection; or
-- the affected rows, the insert id and the rows.
pub data Reply : Type 0 where
  failed : Bool → Reply
  done : ℕ → ℕ → List Row → Reply
