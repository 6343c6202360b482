-- ===== src/Storage/Mysql.antt =====
-- src/storage/mysql_client.h and mysql_client.cpp: the connection, its loss and the transactions.
-- The recursive mutex makes each call one step, and a transaction with all its statements too.
use cpp_game_room.Base.{
  ℕ, Bool, true, false, not, ◌||◌, Option, none, some, List, [], if◌then◌else◌, ◌==◌,
}
use cpp_game_room.Base.Int.{ℤ, pos, negsuc}
use cpp_game_room.Storage.Statement.{Statement, start_transaction, Row, Reply, failed, done}

-- How mysql_init and mysql_real_connect end.
pub data Connected : Type 0 where
  no_handle refused connected : Connected

-- The C library with the server behind it: `Db` is the state of both, failures to come included.
pub record MysqlApi : Type 1 where
  pub Db : Type 0
  pub real_connect : Db → Db × Connected
  -- mysql_close
  pub close : Db → Db
  -- mysql_query with the calls that read its outcome.
  pub query : Statement → Db → Db × Reply
  -- mysql_rollback and mysql_commit; true is their 0.
  pub rollback : Db → Db × Bool
  pub commit : Db → Db × Bool

-- MysqlClient, over the state of the library: whether conn_ is set, and in_transaction_.
pub record MysqlClient (D : Type 0) : Type 0 where
  pub conn : Bool
  pub in_transaction : Bool
  pub db : D

module _ (api : MysqlApi) where
  open api use {Db}

  abbrev pub Client : Type 0
  Client = MysqlClient Db

  unfoldable pub disconnect : Client → Client
  disconnect c = if c.conn then record c { conn = false; db = api.close c.db } else c

  -- Connect after mysql_init and mysql_real_connect.
  unfoldable pub after_connect : Client → Db → Connected → Client × Bool
  after_connect c db' no_handle = (record c { conn = false; db = db' }, false)
  after_connect c db' refused = (record c { conn = false; db = api.close db' }, false)
  after_connect c db' connected = (record c { conn = true; db = db' }, true)

  unfoldable pub connect : Client → Client × Bool
  connect c =
      if c.in_transaction
      then (c, false)
      else let c' = disconnect c in
        after_connect c' (api.real_connect c'.db).0 (api.real_connect c'.db).1

  -- The test `!conn_ && !Connect()`, negated: whether there is a connection, or can be one now.
  unfoldable pub ensure_connected : Client → Client × Bool
  ensure_connected c = if c.conn then (c, true) else connect c

  -- ResetOnConnectionError, of the error of the last query.
  unfoldable pub reset_on_connection_error : Bool → Client → Client
  reset_on_connection_error lost c =
      if not c.conn || c.in_transaction then c else if lost then disconnect c else c

  -- After a query on a connection.
  unfoldable pub receive : Client → Db → Reply → Client × Option (ℕ × ℕ × List Row)
  receive c db' (failed lost) = (reset_on_connection_error lost (record c { db = db' }), none)
  receive c db' (done affected id rows) = (record c { db = db' }, some (affected, id, rows))

  -- The common part of the calls: the outcome of the query, or `none` for each kind of failure.
  unfoldable pub ask : Statement → Client → Client × Option (ℕ × ℕ × List Row)
  ask st c =
      let (c', ready) = ensure_connected c in
      if not ready then (c', none) else receive c' (api.query st c'.db).0 (api.query st c'.db).1

  unfoldable pub execute : Statement → Client → Client × Bool
  execute st c = let (c', r) = ask st c in elim r [ none ↦ (c', false) | some o ↦ (c', true) ]

  -- -1 on failure.
  unfoldable pub execute_affected : Statement → Client → Client × ℤ
  execute_affected st c =
      let (c', r) = ask st c in
      elim r [ none ↦ (c', negsuc 0) | some (affected, id, rows) ↦ (c', pos affected) ]

  unfoldable pub execute_insert : Statement → Client → Client × ℕ
  execute_insert st c =
      let (c', r) = ask st c in
      elim r [
        | none ↦ (c', 0)
        | some (affected, id, rows) ↦ (c', (if affected == 1 then id else 0))
      ]

  -- MysqlClient::Query; a failure gives no rows.
  unfoldable pub query_rows : Statement → Client → Client × List Row
  query_rows st c =
      let (c', r) = ask st c in elim r [ none ↦ (c', []) | some (affected, id, rows) ↦ (c', rows) ]

  -- EscapeString connects if it must; the text it gives stands for the value that it is given.
  unfoldable pub escape_string : Client → Client
  escape_string c = (ensure_connected c).0

  -- The rollbacks, in the code twice.
  unfoldable pub roll_back : Client → Client
  roll_back c =
      let (db', ok) = api.rollback c.db in
      let c' = record c { db = db' } in
      let c'' = if ok then c' else disconnect c' in record c'' { in_transaction = false }

  -- The end after mysql_commit.
  unfoldable pub after_commit : Client → Db → Bool → Client × Option Bool
  after_commit c db' true = (record c { db = db'; in_transaction = false }, some true)
  after_commit c db' false =
      (record (disconnect (record c { db = db' })) { in_transaction = false }, some false)

  -- The end of a transaction after its operation: `none` is an exception on its way out.
  unfoldable pub finish_transaction : Client → Option Bool → Client × Option Bool
  finish_transaction c none =
      ((if c.conn then roll_back c else record c { in_transaction = false }), none)
  finish_transaction c (some success) =
      if not c.conn
      then (record c { in_transaction = false }, some false)
      else if not success
      then (roll_back c, some false)
      else after_commit c (api.commit c.db).0 (api.commit c.db).1

  -- RunTransaction after START TRANSACTION.
  unfoldable pub after_start :
      (Client → Client × Option Bool) → Client → Db → Reply → Client × Option Bool
  after_start operation c db' (failed lost) = (disconnect (record c { db = db' }), some false)
  after_start operation c db' (done affected id rows) =
      let (c', outcome) = operation (record c { db = db'; in_transaction = true }) in
      finish_transaction c' outcome

  unfoldable pub run_transaction : (Client → Client × Option Bool) → Client → Client × Option Bool
  run_transaction operation c =
      if c.in_transaction
      then (c, some false)
      else let (c', ready) = ensure_connected c in
        if not ready
        then (c', some false)
        else after_start operation c' (api.query start_transaction c'.db).0
            (api.query start_transaction c'.db).1
