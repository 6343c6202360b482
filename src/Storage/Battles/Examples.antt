-- ===== src/Storage/Battles/Examples.antt =====
-- Settlements of a battle of two on a server that fails on demand.
use cpp_game_room.Base.{◌↔◌, ℕ, ◌≡◌, refl, Bool, true, false, some, List, [], ◌∷◌}
use cpp_game_room.Base.Int.{pos, negsuc, ◌+ℤ◌}
use cpp_game_room.Base.Map.{lookup, adjust, insert}
use cpp_game_room.Storage.Mysql.{
  run_transaction, ensure_connected, connect, after_connect, after_start, after_commit, disconnect,
  finish_transaction, query_rows, ask, receive, escape_string, execute, execute_affected,
  reset_on_connection_error, roll_back,
}
use cpp_game_room.Storage.Players.{update_player_score}
use cpp_game_room.Storage.Battles.{
  apply_settlement, checked_results, one_winner, count_winners, sort_results, insert_sorted,
  is_expected, settle_in_transaction, confirm_settled, first_settlement,
  insert_battle_player_result, insert_settlement_log, same_results, settle_player, settle_players,
  the_battle,
}
use cpp_game_room.Storage.Battles.Tables.{exec}
use cpp_game_room.Storage.Battles.Server.{server, server_laws, client, client-Outside, before}
use cpp_game_room.Storage.Battles.Once.{
  Call, apply, apply_all, OneEffect, apply_all-OneEffect, apply_all-agree, apply_settlement-Outcome,
}
use cpp_game_room.Storage.Battles.Sheet.{IsSheet, checked_results_iff}
use cpp_game_room.Storage.Battles.Outcome.{Outcome}

abbrev won_by : ℕ → ℕ → Call
won_by w l = record {
  mysql = true;
  battle = record { battle_id = 7; room_id = 100001; winner_id = w; result_json = "{}" };
  results =
      record { battle_id = 7; player_id = w; result = "WIN"; score_delta = pos 20 }
      ∷ record { battle_id = 7; player_id = l; result = "LOSE"; score_delta = negsuc 9 }
      ∷ [];
}

-- The first call loses the connection in the middle, the second one settles the battle, the third
-- one names the other player, and the last one repeats the second.
abbrev calls : List Call
calls =
    won_by 100001 100002 ∷ won_by 100001 100002 ∷ won_by 100002 100001 ∷ won_by 100001 100002 ∷ []

abbrev faults : List Bool
faults = false ∷ false ∷ false ∷ true ∷ []

apply_all-OneEffect_example :
    OneEffect calls before (apply_all server calls (client faults)).db.committed
apply_all-OneEffect_example =
    apply_all-OneEffect server server_laws 7 calls (client faults) (client-Outside faults)
      (refl, (refl, (refl, (refl, tt))))

-- A call that settles, two that the first one's loss and the other winner refuse, and a repetition.
first_call : (apply server (won_by 100001 100002) (client [])).1 ≡ some true
unfolding apply_settlement checked_results one_winner count_winners sort_results insert_sorted
    is_expected run_transaction ensure_connected connect after_connect after_start after_commit
    disconnect finish_transaction settle_in_transaction query_rows ask receive confirm_settled
    first_settlement insert_battle_player_result insert_settlement_log same_results settle_player
    settle_players the_battle escape_string execute execute_affected reset_on_connection_error
    roll_back update_player_score exec lookup adjust insert ◌+ℤ◌
first_call = refl

abbrev between : List Call
between = won_by 100002 100001 ∷ won_by 100001 100003 ∷ []

last_call :
    (apply server
      (won_by 100001 100002)
      (apply_all server between (apply server (won_by 100001 100002) (client [])).0)).1
    ≡ some true
unfolding apply_settlement checked_results one_winner count_winners sort_results insert_sorted
    is_expected run_transaction ensure_connected connect after_connect after_start after_commit
    disconnect finish_transaction settle_in_transaction query_rows ask receive confirm_settled
    first_settlement insert_battle_player_result insert_settlement_log same_results settle_player
    settle_players the_battle escape_string execute execute_affected reset_on_connection_error
    roll_back update_player_score exec lookup adjust insert ◌+ℤ◌
last_call = refl

scores_after :
    (apply_all server calls (client faults)).db.committed.players
    ≡ (100001, record { score = pos 1020; wins = pos 1; losses = pos 0 })
      ∷ (100002, record { score = pos 990; wins = pos 0; losses = pos 1 })
      ∷ []
unfolding apply_settlement checked_results one_winner count_winners sort_results insert_sorted
    is_expected run_transaction ensure_connected connect after_connect after_start after_commit
    disconnect finish_transaction settle_in_transaction query_rows ask receive confirm_settled
    first_settlement insert_battle_player_result insert_settlement_log same_results settle_player
    settle_players the_battle escape_string execute execute_affected reset_on_connection_error
    roll_back update_player_score exec lookup adjust insert ◌+ℤ◌
scores_after = refl

apply_all-agree_example :
    (won_by 100001 100002).battle.winner_id ≡ (won_by 100001 100002).battle.winner_id
apply_all-agree_example =
    apply_all-agree server server_laws (won_by 100001 100002) (won_by 100001 100002) between
      (client []) (client-Outside []) (refl, (refl, tt)) refl first_call last_call

apply_settlement-Outcome_example :
    Outcome server server_laws
      (won_by 100001 100002).battle
      (sort_results (won_by 100001 100002).results)
      (client [])
      (apply_settlement server true
        (won_by 100001 100002).battle
        (won_by 100001 100002).results
        (client []))
apply_settlement-Outcome_example =
    apply_settlement-Outcome server server_laws true (won_by 100001 100002).battle
      (won_by 100001 100002).results (client []) (client-Outside [])

-- The winner of the higher id: its result stands first in the call and last in the order.
checked_results_iff_example :
    (checked_results true (won_by 100002 100001).battle (won_by 100002 100001).results
      ≡ some (sort_results (won_by 100002 100001).results))
    ↔ (IsSheet (won_by 100002 100001).battle (won_by 100002 100001).results
        × (sort_results (won_by 100002 100001).results
            ≡ sort_results (won_by 100002 100001).results))
checked_results_iff_example =
    checked_results_iff (won_by 100002 100001).battle (won_by 100002 100001).results
      (sort_results (won_by 100002 100001).results)

sorted_results :
    checked_results true (won_by 100002 100001).battle (won_by 100002 100001).results
    ≡ some (
        record { battle_id = 7; player_id = 100001; result = "LOSE"; score_delta = negsuc 9 }
        ∷ record { battle_id = 7; player_id = 100002; result = "WIN"; score_delta = pos 20 }
        ∷ [])
unfolding checked_results one_winner count_winners sort_results insert_sorted is_expected
sorted_results = refl
