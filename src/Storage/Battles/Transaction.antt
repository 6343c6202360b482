-- ===== src/Storage/Battles/Transaction.antt =====
-- The statements of a settlement inside its transaction: what they do to the tables, and that they
-- commit nothing.
use cpp_game_room.Base.{
  ℕ, ◌≡◌, refl, ap, ◌∙◌, inl, inr, Bool, true, false, not, ◌||◌, Option, some, List, [], ◌∷◌,
  if◌then◌else◌, arith, if_intro, Option-cases,
}
use cpp_game_room.Base.Int.{ℤ, pos, leb_ℤ, eqb_ℤ}
use cpp_game_room.Storage.Statement.{
  Battle, BattlePlayerResult, SettlementLog, Statement, insert_result, insert_log, finish_battle,
  Row, Reply, failed, done,
}
use cpp_game_room.Storage.Mysql.{
  MysqlApi, Client, ask, ensure_connected, execute, execute_affected, escape_string, receive,
  reset_on_connection_error,
}
use cpp_game_room.Storage.Players.{update_player_score}
use cpp_game_room.Storage.Battles.{
  insert_battle_player_result, insert_settlement_log, settle_player, settle_players,
  first_settlement,
}
use cpp_game_room.Storage.Battles.Tables.{Tables, Transactional, exec, InSettlement}
use cpp_game_room.Storage.Battles.Work.{
  kept, run, and_then, and_then-eq-some, log_of, score_statement, effect_player, effect_players,
  effect,
}

one_affected : (n : ℤ) → eqb_ℤ n (pos 1) ≡ true → leb_ℤ (pos 1) n ≡ true
one_affected n h = ground arith

module _ (api : MysqlApi) (laws : Transactional api) where
  open laws use {durable, working, Open}

  -- The client is in the middle of a transaction.
  pub record Busy (c : Client api) : Type 0 where
    pub linked : c.conn ≡ true
    pub inside : c.in_transaction ≡ true
    pub is_open : Open c.db

  -- From `c` to `c'` nothing was committed and the transaction was not left.
  pub record Held (c c' : Client api) : Type 0 where
    pub linked : c'.conn ≡ true
    pub inside : c'.in_transaction ≡ true
    pub same : durable c'.db ≡ durable c.db

  -- A piece of work: it commits nothing, and where it reports success it did what `work` says.
  pub record Does (work : Tables → Option Tables) (c : Client api) (r : Client api × Bool)
      : Type 0 where
    pub held : Held c r.0
    pub did : r.1 ≡ true → Open r.0.db × (work (working c.db) ≡ some (working r.0.db))

  pub Busy-Held : {c : Client api} → Busy c → Held c c
  Busy-Held b = record { linked = b.linked; inside = b.inside; same = refl }

  pub Held-trans : {c d e : Client api} → Held c d → Held d e → Held c e
  Held-trans h k = record { linked = k.linked; inside = k.inside; same = k.same ∙ h.same }

  Does-Busy :
      {work : Tables → Option Tables} {c : Client api} {r : Client api × Bool}
      → Does work c r
      → r.1 ≡ true
      → Busy r.0
  Does-Busy d e = record { linked = d.held.linked; inside = d.held.inside; is_open = (d.did e).0 }

  -- A failure on the way.
  pub Does-false :
      {work : Tables → Option Tables} {c c' : Client api} → Held c c' → Does work c (c', false)
  Does-false h = record { held = h; did = λ e. cc }

  -- One piece of work, and the next only after success.
  pub Does-and_then :
      {f g : Tables → Option Tables} {c : Client api} (r s : Client api × Bool)
      → Does f c r
      → (Busy r.0 → Does g r.0 s)
      → Does (and_then f g) c (if not r.1 then (r.0, false) else s)
  Does-and_then {f} {g} {c} r s d next =
      if_intro (Does (and_then f g) c) (not r.1) (λ _. Does-false d.held)
        (λ h.
          let ok : r.1 ≡ true = ground arith in
          let n = next (Does-Busy d ok) in
          record {
            held = Held-trans d.held n.held;
            did = λ e. (
              (n.did e).0,
              and_then-eq-some f g (working c.db) (working r.0.db) (working s.0.db) (d.did ok).1
                  (n.did e).1,
            );
          })

  -- What a query inside the transaction gives.
  pub record Asked (st : Statement) (c : Client api) (r : Client api × Option (ℕ × ℕ × List Row))
      : Type 0 where
    pub held : Held c r.0
    pub answered :
        (a i : ℕ) (rows : List Row)
        → r.1 ≡ some (a, i, rows)
        → Open r.0.db × (exec st (working c.db) ≡ some (working r.0.db, a, rows))

  pub ensure_connected-Busy : (c : Client api) → c.conn ≡ true → ensure_connected api c ≡ (c, true)
  unfolding ensure_connected
  ensure_connected-Busy c h = if_intro (λ r. r ≡ (c, true)) c.conn (λ _. refl) (λ e. cc)

  reset-Busy :
      (lost : Bool) (c : Client api)
      → c.in_transaction ≡ true
      → reset_on_connection_error api lost c ≡ c
  unfolding reset_on_connection_error
  reset-Busy lost c h =
      if_intro (λ r. r ≡ c) (not c.conn || c.in_transaction) (λ _. refl)
        (λ e. absurd (ground arith))

  ask-Busy :
      (st : Statement) (c : Client api)
      → c.conn ≡ true
      → ask api st c ≡ receive api c (api.query st c.db).0 (api.query st c.db).1
  unfolding ask
  ask-Busy st c h = rw (ensure_connected-Busy c h)

  receive-Asked :
      (st : Statement) (c : Client api) (reply : Reply)
      → Busy c
      → InSettlement st
      → (api.query st c.db).1 ≡ reply
      → Asked st c (receive api c (api.query st c.db).0 reply)
  unfolding receive
  receive-Asked st c (failed lost) b s e =
      rw (reset-Busy lost (record c { db = (api.query st c.db).0 }) b.inside) (record {
        held = record {
          linked = b.linked;
          inside = b.inside;
          same = laws.statement_keeps c.db st b.is_open s;
        };
        answered = λ a i rows h. cc;
      })
  receive-Asked st c (done a i rows) b s e = record {
    held = record {
      linked = b.linked;
      inside = b.inside;
      same = laws.statement_keeps c.db st b.is_open s;
    };
    answered = λ a' i' rows' h.
        let run = laws.statement_runs c.db st a i rows b.is_open s e in
        (
          run.0,
          run.1 ∙ ap (λ (x : ℕ × List Row). some (working (api.query st c.db).0, x.0, x.1)) (cc h),
        );
  }

  -- A query inside the transaction commits nothing and does what it says, or reports its failure.
  pub ask-Asked :
      (st : Statement) (c : Client api) → Busy c → InSettlement st → Asked st c (ask api st c)
  ask-Asked st c b s =
      rw (ask-Busy st c b.linked) (receive-Asked st c (api.query st c.db).1 b s refl)

  -- The calls of the client, inside a transaction.
  execute_affected-Does :
      (st : Statement) (c : Client api)
      → Busy c
      → InSettlement st
      → Does (run st) c ((execute_affected api st c).0, leb_ℤ (pos 1) (execute_affected api st c).1)
  unfolding execute_affected
  execute_affected-Does st c b s =
      let q = ask-Asked st c b s in
      elim (Option-cases (ask api st c).1) [
        | inl e ↦ rw (e, execute_affected) (Does-false q.held)
        | inr ((a, i, rows), e) ↦
            rw (e, execute_affected)
              (record {
                held = q.held;
                did = λ _. let x = q.answered a i rows e in (x.0, ap kept x.1);
              })
      ]

  execute-Does :
      (st : Statement) (c : Client api)
      → Busy c
      → InSettlement st
      → Does (run st) c (execute api st c)
  unfolding execute
  execute-Does st c b s =
      let q = ask-Asked st c b s in
      elim (Option-cases (ask api st c).1) [
        | inl e ↦ rw (e, execute) (Does-false q.held)
        | inr ((a, i, rows), e) ↦
            rw (e, execute)
              (record {
                held = q.held;
                did = λ _. let x = q.answered a i rows e in (x.0, ap kept x.1);
              })
      ]

  -- The methods of the repositories.
  insert_battle_player_result-Does :
      (mysql : Bool) (r : BattlePlayerResult) (c : Client api)
      → Busy c
      → Does (run (insert_result r)) c (insert_battle_player_result api mysql r c)
  unfolding insert_battle_player_result escape_string
  insert_battle_player_result-Does mysql r c b =
      if_intro (Does (run (insert_result r)) c) (not mysql) (λ _. Does-false (Busy-Held b))
        (λ _.
          rw (ensure_connected-Busy c b.linked, escape_string)
            (execute_affected-Does (insert_result r) c b tt))

  insert_settlement_log-Does :
      (mysql : Bool) (l : SettlementLog) (c : Client api)
      → Busy c
      → Does (run (insert_log l)) c (insert_settlement_log api mysql l c)
  unfolding insert_settlement_log
  insert_settlement_log-Does mysql l c b =
      if_intro (Does (run (insert_log l)) c) (not mysql) (λ _. Does-false (Busy-Held b))
        (λ _. execute_affected-Does (insert_log l) c b tt)

  update_player_score-Does :
      (mysql : Bool) (r : BattlePlayerResult) (c : Client api)
      → Busy c
      → Does (run (score_statement r)) c (update_player_score api mysql r.player_id r.score_delta c)
  unfolding update_player_score
  update_player_score-Does mysql r c b =
      if_intro (Does (run (score_statement r)) c) (not mysql) (λ _. Does-false (Busy-Held b))
        (λ _. execute-Does (score_statement r) c b tt)

  settle_player-Does :
      (mysql : Bool) (battle_id : ℕ) (r : BattlePlayerResult) (c : Client api)
      → Busy c
      → Does (effect_player battle_id r) c (settle_player api mysql battle_id r c)
  unfolding settle_player
  settle_player-Does mysql battle_id r c b =
      Does-and_then _ _ (insert_battle_player_result-Does mysql r c b) (λ b1.
        Does-and_then _ _ (insert_settlement_log-Does mysql (log_of battle_id r) _ b1)
          (λ b2. update_player_score-Does mysql r _ b2))

  settle_players-Does :
      (mysql : Bool) (battle_id : ℕ) (rs : List BattlePlayerResult) (c : Client api)
      → Busy c
      → Does (effect_players battle_id rs) c (settle_players api mysql battle_id rs c)
  unfolding settle_players
  settle_players-Does mysql battle_id [] c b = record {
    held = Busy-Held b;
    did = λ _. (b.is_open, refl);
  }
  settle_players-Does mysql battle_id (r ∷ rs) c b =
      Does-and_then _ _ (settle_player-Does mysql battle_id r c b)
        (λ b1. settle_players-Does mysql battle_id rs _ b1)

  -- The first settlement of a battle: it reports success only after all of its work, with one
  -- battle finished, and then that is what the transaction holds.
  pub record Settles (battle : Battle) (rs : List BattlePlayerResult) (c : Client api)
      (r : Client api × Option Bool) : Type 0 where
    pub held : Held c r.0
    pub did :
        r.1 ≡ some true → Open r.0.db × (effect battle rs (working c.db) ≡ some (working r.0.db))

  pub first_settlement-Settles :
      (mysql : Bool) (battle : Battle) (rs : List BattlePlayerResult) (c : Client api)
      → Busy c
      → Settles battle rs c (first_settlement api mysql battle rs c)
  unfolding first_settlement
  first_settlement-Settles mysql battle rs c b =
      let d = settle_players-Does mysql battle.battle_id rs c b in
      if_intro (Settles battle rs c) (not (settle_players api mysql battle.battle_id rs c).1)
        (λ _. record { held = d.held; did = λ e. cc })
        (λ h.
          let ok : (settle_players api mysql battle.battle_id rs c).1 ≡ true = ground arith in
          let n =
            execute_affected-Does (finish_battle battle.battle_id battle.winner_id) _
              (Does-Busy d ok) tt in
          record {
            held = Held-trans d.held n.held;
            did = λ e.
                let one = n.did (one_affected _ (cc e)) in
                (
                  one.0,
                  and_then-eq-some (effect_players battle.battle_id rs)
                      (run (finish_battle battle.battle_id battle.winner_id)) (working c.db) _ _
                      (d.did ok).1 one.1,
                );
          })
