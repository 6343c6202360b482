-- ===== src/Storage/Battles.antt =====
-- src/storage/battle_repository.cpp. The first argument tells whether the MySQL pointer is set.
pub mod Tables
pub mod Checked
pub mod Sheet
pub mod Work
pub mod Transaction
pub mod Verdict
pub mod Outcome
pub mod Effect
pub mod Reading
pub mod Once
pub mod Server
pub mod Examples
use text.Mathlib.Text.{◌==◌ as str_eq}
use cpp_game_room.Base.{
  ℕ, zero, suc, ◌+◌, ◌%◌, ◌^◌, Bool, true, false, not, ◌&&◌, ◌||◌, Option, none, some, List, [],
  ◌∷◌, if◌then◌else◌, String, ltb, leb, ◌==◌, length, is_positive64,
}
use cpp_game_room.Base.Int.{ℤ, pos, negsuc, eqb_ℤ, leb_ℤ}
use cpp_game_room.Storage.Statement.{
  Battle, BattlePlayerResult, SettlementLog, Row, battle_row, result_row, reserve_battle,
  select_battle, select_results, insert_battle, insert_result, insert_log, select_log,
  finish_battle,
}
use cpp_game_room.Storage.Mysql.{
  MysqlApi, Client, query_rows, execute_affected, execute_insert, escape_string, run_transaction,
}
use cpp_game_room.Storage.Players.{update_player_score}

-- a < b on `int64_t`, of the bit patterns.
abbrev pub ltb64 : ℕ → ℕ → Bool
ltb64 a b = ltb ((a + 2 ^ 63) % 2 ^ 64) ((b + 2 ^ 63) % 2 ^ 64)

-- std::sort by player id, as insertion.
unfoldable pub insert_sorted :
    BattlePlayerResult → List BattlePlayerResult → List BattlePlayerResult
insert_sorted x [] = x ∷ []
insert_sorted x (y ∷ ys) =
    if ltb64 y.player_id x.player_id then y ∷ insert_sorted x ys else x ∷ y ∷ ys

unfoldable pub sort_results : List BattlePlayerResult → List BattlePlayerResult
unfolding insert_sorted
sort_results [] = []
sort_results (x ∷ xs) = insert_sorted x (sort_results xs)

abbrev pub outcome_of : Bool → String
outcome_of winner = if winner then "WIN" else "LOSE"

abbrev pub delta_of : Bool → ℤ
delta_of winner = if winner then pos 20 else negsuc 9

-- The check of one entry after `previous`.
unfoldable pub is_expected : Battle → ℕ → BattlePlayerResult → Bool
is_expected battle previous r =
    let winner = r.player_id == battle.winner_id in
    r.battle_id == battle.battle_id
    && ltb64 previous r.player_id
    && str_eq r.result (outcome_of winner)
    && eqb_ℤ r.score_delta (delta_of winner)

-- The loop of checks: the number of winners, or `none` for the early return.
unfoldable pub count_winners : Battle → ℕ → ℕ → List BattlePlayerResult → Option ℕ
count_winners battle count previous [] = some count
count_winners battle count previous (r ∷ rs) =
    let rest =
      count_winners battle (if r.player_id == battle.winner_id then count + 1 else count)
        r.player_id rs in
    if is_expected battle previous r then rest else none

-- The checks after the loop.
unfoldable pub one_winner : List BattlePlayerResult → Option ℕ → Option (List BattlePlayerResult)
one_winner ordered none = none
one_winner ordered (some winners) = if winners == 1 then some ordered else none

-- Everything before the transaction: `none` is a refusal, else the results in order.
unfoldable pub checked_results :
    Bool → Battle → List BattlePlayerResult → Option (List BattlePlayerResult)
checked_results mysql battle results =
    let ordered = sort_results results in
    if not mysql
      || not (is_positive64 battle.battle_id)
      || not (is_positive64 battle.room_id)
      || not (is_positive64 battle.winner_id)
      || leb (length results) 0
    then none
    else one_winner ordered (count_winners battle 0 0 ordered)

-- The comparison of the saved rows with the results: `none` is a row without the column asked for.
unfoldable pub same_results : List Row → List BattlePlayerResult → Option Bool
same_results (result_row player_id result score_delta ∷ rows) (r ∷ rs) =
    let rest = same_results rows rs in
    if player_id == r.player_id && str_eq result r.result && eqb_ℤ score_delta r.score_delta
    then rest
    else some false
same_results (row ∷ rows) (r ∷ rs) = none
same_results rows rs = some true

-- stoll(rows[0].at("room_id")) and the other columns.
unfoldable pub the_battle : List Row → Option (ℕ × ℕ × ℕ)
the_battle (battle_row room_id winner_id settled ∷ rest) = some (room_id, winner_id, settled)
the_battle _ = none

module _ (api : MysqlApi) where
  unfoldable pub create_battle : Bool → ℕ → Client api → Client api × ℕ
  create_battle mysql room_id c =
      if not mysql || not (is_positive64 room_id)
      then (c, 0)
      else execute_insert api (reserve_battle room_id) c

  unfoldable pub insert_battle_row : Bool → Battle → Client api → Client api × Bool
  insert_battle_row mysql b c =
      if not mysql
      then (c, false)
      else let (c', n) = execute_affected api (insert_battle b) (escape_string api c) in
        (c', leb_ℤ (pos 1) n)

  unfoldable pub insert_battle_player_result :
      Bool → BattlePlayerResult → Client api → Client api × Bool
  insert_battle_player_result mysql r c =
      if not mysql
      then (c, false)
      else let (c', n) = execute_affected api (insert_result r) (escape_string api c) in
        (c', leb_ℤ (pos 1) n)

  unfoldable pub insert_settlement_log : Bool → SettlementLog → Client api → Client api × Bool
  insert_settlement_log mysql log c =
      if not mysql
      then (c, false)
      else let (c', n) = execute_affected api (insert_log log) c in (c', leb_ℤ (pos 1) n)

  unfoldable pub has_settlement : Bool → ℕ → ℕ → Client api → Client api × Bool
  has_settlement mysql battle_id player_id c =
      if not mysql
      then (c, false)
      else let (c', rows) = query_rows api (select_log battle_id player_id) c in
        (c', ltb 0 (length rows))

  -- The three writes for one player, each only after the one before succeeded.
  unfoldable pub settle_player : Bool → ℕ → BattlePlayerResult → Client api → Client api × Bool
  settle_player mysql battle_id r c =
      let (c1, a) = insert_battle_player_result mysql r c in
      if not a
      then (c1, false)
      else let (c2, b) =
          insert_settlement_log mysql
            (record {
              settlement_id = 0;
              battle_id = battle_id;
              player_id = r.player_id;
              score_delta = r.score_delta;
            })
            c1 in
        if not b then (c2, false) else update_player_score api mysql r.player_id r.score_delta c2

  unfoldable pub settle_players :
      Bool → ℕ → List BattlePlayerResult → Client api → Client api × Bool
  settle_players mysql battle_id [] c = (c, true)
  settle_players mysql battle_id (r ∷ rs) c =
      let (c', ok) = settle_player mysql battle_id r c in
      let rest = settle_players mysql battle_id rs c' in if not ok then (c', false) else rest

  -- A battle that is settled already: only the same result counts as success.
  unfoldable pub confirm_settled :
      Battle → List BattlePlayerResult → ℕ → Client api → Client api × Option Bool
  confirm_settled battle ordered winner_id c =
      if not (winner_id == battle.winner_id)
      then (c, some false)
      else let (c', saved) = query_rows api (select_results battle.battle_id) c in
        if not (length saved == length ordered)
        then (c', some false)
        else (c', same_results saved ordered)

  unfoldable pub first_settlement :
      Bool → Battle → List BattlePlayerResult → Client api → Client api × Option Bool
  first_settlement mysql battle ordered c =
      let (c', ok) = settle_players mysql battle.battle_id ordered c in
      if not ok
      then (c', some false)
      else let (c'', n) =
          execute_affected api (finish_battle battle.battle_id battle.winner_id) c' in
        (c'', some (eqb_ℤ n (pos 1)))

  -- The function that ApplySettlement runs in the transaction.
  unfoldable pub settle_in_transaction :
      Bool → Battle → List BattlePlayerResult → Client api → Client api × Option Bool
  settle_in_transaction mysql battle ordered c =
      let (c', rows) = query_rows api (select_battle battle.battle_id) c in
      if not (length rows == 1) then (c', some false) else elim (the_battle rows) [
        | none ↦ (c', none)
        | some (room_id, winner_id, settled) ↦
            if not (room_id == battle.room_id)
            then (c', some false)
            else if settled == 1
            then confirm_settled battle ordered winner_id c'
            else first_settlement mysql battle ordered c'
      ]

  -- `none` is an exception that leaves the call.
  unfoldable pub apply_settlement :
      Bool → Battle → List BattlePlayerResult → Client api → Client api × Option Bool
  apply_settlement mysql battle results c = elim (checked_results mysql battle results) [
    | none ↦ (c, some false)
    | some ordered ↦ run_transaction api (settle_in_transaction mysql battle ordered) c
  ]
