-- ===== src/Storage/Players.antt =====
-- src/storage/player_repository.cpp. The first argument tells whether the MySQL pointer is set.
use cpp_game_room.Base.{ℕ, Bool, false, not, Option, none, some, List, ◌∷◌, if◌then◌else◌, String}
use cpp_game_room.Base.Int.{ℤ, pos, negsuc, ◌+ℤ◌, leb_ℤ}
use cpp_game_room.Storage.Statement.{
  PlayerData, Row, player_row, select_player, upsert_player, upsert_score,
}
use cpp_game_room.Storage.Mysql.{MysqlApi, Client, query_rows, execute, escape_string}

-- rows.front(), where there is one.
unfoldable pub first_player : List Row → Option PlayerData
first_player (player_row d ∷ rest) = some d
first_player _ = none

module _ (api : MysqlApi) where
  -- The data that FindPlayer writes, or `none` for false. Rows of another kind do not come back.
  unfoldable pub find_player : Bool → ℕ → Client api → Client api × Option PlayerData
  find_player mysql player_id c =
      if not mysql
      then (c, none)
      else let (c', rows) = query_rows api (select_player player_id) c in (c', first_player rows)

  unfoldable pub create_player : Bool → PlayerData → Client api → Client api × Bool
  create_player mysql d c =
      if not mysql then (c, false) else execute api (upsert_player d) (escape_string api c)

  -- LoadPlayer, with the default name `"player_" + std::to_string(player_id)` given to it.
  unfoldable pub load_player : Bool → (ℕ → String) → ℕ → Client api → Client api × PlayerData
  load_player mysql default_name player_id c =
      let (c', found) = find_player mysql player_id c in
      elim found [
        | some d ↦ (c', d)
        | none ↦
            let d : PlayerData = record {
              player_id = player_id;
              name = default_name player_id;
              score = pos 1000;
              win_count = pos 0;
              lose_count = pos 0;
            } in
            ((create_player mysql d c').0, d)
      ]

  unfoldable pub update_player_score : Bool → ℕ → ℤ → Client api → Client api × Bool
  update_player_score mysql player_id score_delta c =
      if not mysql
      then (c, false)
      else execute api
          (upsert_score player_id (pos 1000 +ℤ score_delta) score_delta
            (if leb_ℤ (pos 1) score_delta then pos 1 else pos 0)
            (if leb_ℤ score_delta (negsuc 0) then pos 1 else pos 0))
          c
