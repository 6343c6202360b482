-- ===== src/Storage/Battles/Work.antt =====
-- The work of a settlement on the tables, one statement after the other.
use cpp_game_room.Base.{ℕ, ◌≡◌, Option, none, some, List, [], ◌∷◌, if◌then◌else◌}
use cpp_game_room.Base.Int.{pos, negsuc, leb_ℤ, ◌+ℤ◌}
use cpp_game_room.Storage.Statement.{
  Battle, BattlePlayerResult, SettlementLog, Statement, insert_result, insert_log, finish_battle,
  upsert_score, Row,
}
use cpp_game_room.Storage.Battles.Tables.{Tables, exec}

-- The tables after a statement, or after one piece of work and then another.
abbrev pub kept : Option (Tables × ℕ × List Row) → Option Tables
kept none = none
kept (some r) = some r.0

abbrev pub run : Statement → Tables → Option Tables
run st t = kept (exec st t)

abbrev pub and_then : (Tables → Option Tables) → (Tables → Option Tables) → Tables → Option Tables
and_then f g t = elim (f t) [ none ↦ none | some t' ↦ g t' ]

pub and_then-eq-some :
    (f g : Tables → Option Tables) (t t' t'' : Tables)
    → f t ≡ some t'
    → g t' ≡ some t''
    → and_then f g t ≡ some t''
and_then-eq-some f g t t' t'' p q = rw (p, and_then) q

-- The whole work for one player, for all players, and for the battle.
abbrev pub log_of : ℕ → BattlePlayerResult → SettlementLog
log_of b r = record {
  settlement_id = 0;
  battle_id = b;
  player_id = r.player_id;
  score_delta = r.score_delta;
}

abbrev pub score_statement : BattlePlayerResult → Statement
score_statement r =
    upsert_score r.player_id (pos 1000 +ℤ r.score_delta) r.score_delta
      (if leb_ℤ (pos 1) r.score_delta then pos 1 else pos 0)
      (if leb_ℤ r.score_delta (negsuc 0) then pos 1 else pos 0)

abbrev pub effect_player : ℕ → BattlePlayerResult → Tables → Option Tables
effect_player b r =
    and_then (run (insert_result r))
      (and_then (run (insert_log (log_of b r))) (run (score_statement r)))

abbrev pub effect_players : ℕ → List BattlePlayerResult → Tables → Option Tables
effect_players b [] = some
effect_players b (r ∷ rs) = and_then (effect_player b r) (effect_players b rs)

abbrev pub effect : Battle → List BattlePlayerResult → Tables → Option Tables
effect battle rs =
    and_then (effect_players battle.battle_id rs)
      (run (finish_battle battle.battle_id battle.winner_id))
