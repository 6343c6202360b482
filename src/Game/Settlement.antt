-- ===== src/Game/Settlement.antt =====
-- src/game/settlement_service.cpp: the settlement of a finished battle, over the repositories and
-- the ranking, which is an interface. The mutex around the transaction makes it one step.
pub mod Participants
pub mod Accepted
pub mod Safe
pub mod Examples
use cpp_game_room.Base.{
  ℕ, Bool, true, false, not, ◌&&◌, ◌||◌, Option, none, some, List, [], ◌∷◌, ◌==◌, if◌then◌else◌,
  is_positive64,
}
use cpp_game_room.Base.Int.{ℤ}
use cpp_game_room.Storage.Statement.{Battle, BattlePlayerResult}
use cpp_game_room.Storage.Mysql.{MysqlApi, Client}
use cpp_game_room.Storage.Players.{find_player}
use cpp_game_room.Storage.Battles.{ltb64, outcome_of, delta_of, apply_settlement}

-- std::set<int64_t>::insert, into ids in ascending signed order.
unfoldable pub insert_set : ℕ → List ℕ → List ℕ
insert_set x [] = x ∷ []
insert_set x (y ∷ ys) =
    let rest = insert_set x ys in
    if x == y then y ∷ ys else if ltb64 x y then x ∷ y ∷ ys else y ∷ rest

-- The loop over the losers; `none` is the early return.
unfoldable pub add_losers : ℕ → List ℕ → List ℕ → Option (List ℕ)
unfolding insert_set
add_losers winner_id participants [] = some participants
add_losers winner_id participants (p ∷ ps) =
    let rest = add_losers winner_id (insert_set p participants) ps in
    if not (is_positive64 p) || p == winner_id then none else rest

unfoldable pub result_of : ℕ → ℕ → ℕ → BattlePlayerResult
result_of battle_id winner_id p = record {
  battle_id = battle_id;
  player_id = p;
  result = outcome_of (p == winner_id);
  score_delta = delta_of (p == winner_id);
}

unfoldable pub results_of : ℕ → ℕ → List ℕ → List BattlePlayerResult
results_of battle_id winner_id [] = []
results_of battle_id winner_id (p ∷ ps) =
    result_of battle_id winner_id p ∷ results_of battle_id winner_id ps

abbrev pub battle_of : ℕ → ℕ → ℕ → Battle
battle_of battle_id room_id winner_id = record {
  battle_id = battle_id;
  room_id = room_id;
  winner_id = winner_id;
  result_json = "";
}

abbrev pub is_none : Option Bool → Bool
is_none none = true
is_none (some b) = false

-- RankService, with the state of its store: UpdateScore.
pub record RankService : Type 1 where
  pub Store : Type 0
  pub update_score : ℕ → ℤ → Store → Store × Bool

module _ (api : MysqlApi) (ranks : RankService) where
  open ranks use {Store}

  -- The loop that writes the scores of the database to the ranking, until something fails.
  unfoldable pub sync_ranks : Bool → List ℕ → Client api → Store → (Client api × Store) × Bool
  sync_ranks mysql [] c s = ((c, s), true)
  sync_ranks mysql (p ∷ ps) c s =
      let (c', found) = find_player api mysql p c in
      elim found [
        | none ↦ ((c', s), false)
        | some d ↦
            let (s', ok) = ranks.update_score p d.score s in
            if not ok then ((c', s'), false) else sync_ranks mysql ps c' s'
      ]

  -- A null pointer does not come here, by the first test of SettleBattle.
  unfoldable pub sync_players :
      Option Bool → List ℕ → Client api → Store → (Client api × Store) × Option Bool
  unfolding sync_ranks
  sync_players none ps c s = ((c, s), some false)
  sync_players (some mysql) ps c s = let (r, ok) = sync_ranks mysql ps c s in (r, some ok)

  -- After ApplySettlement.
  unfoldable pub after_settlement :
      Bool
      → Option Bool
      → List ℕ
      → Option Bool
      → Client api
      → Store
      → (Client api × Store) × Option Bool
  after_settlement has_ranks players ps none c s = ((c, s), none)
  after_settlement has_ranks players ps (some false) c s = ((c, s), some false)
  after_settlement has_ranks players ps (some true) c s =
      if not has_ranks then ((c, s), some true) else sync_players players ps c s

  -- SettleBattle. A repository is `none` for a null pointer, else whether its MySQL pointer is set;
  -- the last `Option` is `none` for an exception.
  unfoldable pub settle_battle :
      Option Bool
      → Option Bool
      → Bool
      → ℕ
      → ℕ
      → ℕ
      → List ℕ
      → Client api
      → Store
      → (Client api × Store) × Option Bool
  settle_battle none players has_ranks battle_id room_id winner_id losers c s = ((c, s), some false)
  settle_battle (some mysql) players has_ranks battle_id room_id winner_id losers c s =
      if (has_ranks && is_none players)
        || not (is_positive64 battle_id)
        || not (is_positive64 room_id)
        || not (is_positive64 winner_id)
      then ((c, s), some false)
      else elim (add_losers winner_id (winner_id ∷ []) losers) [
        | none ↦ ((c, s), some false)
        | some ps ↦
            let (c', outcome) =
              apply_settlement api mysql (battle_of battle_id room_id winner_id)
                (results_of battle_id winner_id ps) c in
            after_settlement has_ranks players ps outcome c' s
      ]
