-- ===== src/Storage/Battles/Tables.antt =====
-- What MySQL documents of the statements of a settlement, on the four tables of config/mysql.sql,
-- and of transactions: the hypotheses under which the settlement is proved.
use cpp_game_room.Base.{
  ℕ, ◌≡◌, ◌⊎◌, Bool, true, false, ◌&&◌, ◌||◌, Option, none, some, List, [], ◌∷◌, ◌==◌,
  if◌then◌else◌,
}
use cpp_game_room.Base.Int.{ℤ, ◌+ℤ◌}
use cpp_game_room.Base.Map.{Map, lookup, insert, adjust}
use cpp_game_room.Storage.Statement.{
  BattlePlayerResult, SettlementLog, Statement, start_transaction, select_battle, select_results,
  insert_result, insert_log, finish_battle, select_player, upsert_score, Row, battle_row,
  result_row, done,
}
use cpp_game_room.Storage.Mysql.{MysqlApi, Client}

pub record BattleEntry : Type 0 where
  pub room_id : ℕ
  pub winner_id : ℕ
  pub settled : ℕ

pub record PlayerEntry : Type 0 where
  pub score : ℤ
  pub wins : ℤ
  pub losses : ℤ

pub record Tables : Type 0 where
  pub battles : Map BattleEntry
  pub results : List BattlePlayerResult
  pub logs : List SettlementLog
  pub players : Map PlayerEntry

-- The unique keys on (battle_id, player_id).
abbrev pub has_result : ℕ → ℕ → List BattlePlayerResult → Bool
has_result b p [] = false
has_result b p (r ∷ rs) = (r.battle_id == b && r.player_id == p) || has_result b p rs

abbrev pub has_log : ℕ → ℕ → List SettlementLog → Bool
has_log b p [] = false
has_log b p (r ∷ rs) = (r.battle_id == b && r.player_id == p) || has_log b p rs

-- ORDER BY player_id over the results of one battle.
abbrev pub place_row : ℕ → Row → List (ℕ × Row) → List (ℕ × Row)
place_row p row [] = (p, row) ∷ []
place_row p row ((q, other) ∷ rest) =
    let later = place_row p row rest in
    elim (Prim.Native.Nat.compare p q) [
      | Prim.Native.Nat.Ordering.gt ↦ (q, other) ∷ later
      | _ ↦ (p, row) ∷ (q, other) ∷ rest
    ]

abbrev pub battle_rows : ℕ → List BattlePlayerResult → List (ℕ × Row)
battle_rows b [] = []
battle_rows b (r ∷ rs) =
    let rest = battle_rows b rs in
    if r.battle_id == b
    then place_row r.player_id (result_row r.player_id r.result r.score_delta) rest
    else rest

abbrev pub second : List (ℕ × Row) → List Row
second [] = []
second ((p, row) ∷ rest) = row ∷ second rest

abbrev pub add_score : ℤ → ℤ → ℤ → PlayerEntry → PlayerEntry
add_score delta wins losses e = record {
  score = e.score +ℤ delta;
  wins = e.wins +ℤ wins;
  losses = e.losses +ℤ losses;
}

abbrev pub finish : ℕ → BattleEntry → BattleEntry
finish winner e = record e { winner_id = winner; settled = 1 }

-- The tables, the affected rows and the rows after a statement; `none` where a unique key fails
-- it, and for the statements that a settlement does not make.
unfoldable pub exec : Statement → Tables → Option (Tables × ℕ × List Row)
exec (select_battle b) t = elim (lookup b t.battles) [
  | none ↦ some (t, 0, [])
  | some e ↦ some (t, 1, battle_row e.room_id e.winner_id e.settled ∷ [])
]
exec (select_results b) t = some (t, 0, second (battle_rows b t.results))
exec (insert_result r) t =
    if has_result r.battle_id r.player_id t.results
    then none
    else some (record t { results = r ∷ t.results }, 1, [])
exec (insert_log l) t =
    if has_log l.battle_id l.player_id t.logs
    then none
    else some (record t { logs = l ∷ t.logs }, 1, [])
exec (finish_battle b winner) t = elim (lookup b t.battles) [
  | none ↦ some (t, 0, [])
  | some e ↦ some (record t { battles = adjust b (finish winner) t.battles }, 1, [])
]
exec (upsert_score p initial delta wins losses) t = elim (lookup p t.players) [
  | none ↦ some (
    record t {
      players = insert p (record { score = initial; wins = wins; losses = losses }) t.players;
    },
    1,
    [],
  )
  | some e ↦ some (record t { players = adjust p (add_score delta wins losses) t.players }, 2, [])
]
exec _ t = none

abbrev pub InSettlement : Statement → Type 0
InSettlement (select_battle b) = Unit {0}
InSettlement (select_results b) = Unit {0}
InSettlement (insert_result r) = Unit {0}
InSettlement (insert_log l) = Unit {0}
InSettlement (finish_battle b w) = Unit {0}
InSettlement (upsert_score p i d w l) = Unit {0}
InSettlement _ = ⊥

-- The behaviour of InnoDB that the settlement relies on: `durable` is what is committed, and
-- `working` what the open transaction sees. `Clean` says that the connection has no transaction
-- with work that is not committed, which START TRANSACTION would commit: nothing is assumed of it
-- on another connection.
pub record Transactional (api : MysqlApi) : Type 1 where
  pub durable : api.Db → Tables
  pub working : api.Db → Tables
  pub Open : api.Db → Type 0
  pub Clean : api.Db → Type 0
  -- Connecting commits nothing and begins nothing.
  pub connect_keeps : (d : api.Db) → durable (api.real_connect d).0 ≡ durable d
  pub connect_clean : (d : api.Db) → Clean d → Clean (api.real_connect d).0
  -- Closing gives up what is not committed.
  pub close_keeps : (d : api.Db) → durable (api.close d) ≡ durable d
  pub close_clean : (d : api.Db) → Clean (api.close d)
  -- Reading a player outside of a transaction changes no table and begins nothing.
  pub read_keeps :
      (d : api.Db) (p : ℕ) → Clean d → durable (api.query (select_player p) d).0 ≡ durable d
  pub read_clean : (d : api.Db) (p : ℕ) → Clean d → Clean (api.query (select_player p) d).0
  -- Where no work is pending, a transaction starts from what is committed; if the start fails
  -- nothing is changed.
  pub start_keeps : (d : api.Db) → Clean d → durable (api.query start_transaction d).0 ≡ durable d
  pub start_opens :
      (d : api.Db) (a i : ℕ) (rows : List Row)
      → Clean d
      → (api.query start_transaction d).1 ≡ done a i rows
      → Open (api.query start_transaction d).0
        × (working (api.query start_transaction d).0 ≡ durable d)
  -- A statement in a transaction commits nothing; one that succeeds does what it says.
  pub statement_keeps :
      (d : api.Db) (st : Statement)
      → Open d
      → InSettlement st
      → durable (api.query st d).0 ≡ durable d
  pub statement_runs :
      (d : api.Db) (st : Statement) (a i : ℕ) (rows : List Row)
      → Open d
      → InSettlement st
      → (api.query st d).1 ≡ done a i rows
      → Open (api.query st d).0 × (exec st (working d) ≡ some (working (api.query st d).0, a, rows))
  -- A rollback commits nothing, and one that succeeds ends the transaction.
  pub rollback_keeps : (d : api.Db) → durable (api.rollback d).0 ≡ durable d
  pub rollback_clean : (d : api.Db) → (api.rollback d).1 ≡ true → Clean (api.rollback d).0
  -- A commit makes the work durable and ends the transaction. Where its answer is lost, either all
  -- of the work is durable or none is.
  pub commit_works :
      (d : api.Db) → Open d → (api.commit d).1 ≡ true → durable (api.commit d).0 ≡ working d
  pub commit_clean : (d : api.Db) → (api.commit d).1 ≡ true → Clean (api.commit d).0
  pub commit_fails :
      (d : api.Db)
      → Open d
      → (api.commit d).1 ≡ false
      → (durable (api.commit d).0 ≡ durable d) ⊎ (durable (api.commit d).0 ≡ working d)

-- The client is in no transaction, and its connection has no work that is not committed.
pub record Outside (api : MysqlApi) (laws : Transactional api) (c : Client api) : Type 0 where
  pub ended : c.in_transaction ≡ false
  pub clean : laws.Clean c.db
