-- ===== src/Storage/Battles/Verdict.antt =====
-- The function that ApplySettlement runs in its transaction, and the transaction around it.
use cpp_game_room.Base.{
  ℕ, ◌<◌, ◌≡◌, ◌∙◌, subst, ◌⊎◌, inl, inr, Bool, true, false, not, Option, some, List, ◌==◌, arith,
  if_intro, Option-cases, length,
}
use cpp_game_room.Base.Map.{lookup}
use cpp_game_room.Storage.Statement.{
  Battle, BattlePlayerResult, Statement, select_battle, select_results, Row,
}
use cpp_game_room.Storage.Mysql.{MysqlApi, Client, ask, query_rows}
use cpp_game_room.Storage.Battles.{the_battle, confirm_settled, settle_in_transaction}
use cpp_game_room.Storage.Battles.Tables.{Tables, BattleEntry, Transactional, exec, InSettlement}
use cpp_game_room.Storage.Battles.Transaction.{
  Busy, Held, Held-trans, Busy-Held, ask-Asked, first_settlement-Settles,
}
use cpp_game_room.Storage.Battles.Work.{effect}

-- The battle's entry in the tables, settled for this winner, or not settled yet.
pub record IsSettled (battle : Battle) (t : Tables) : Type 0 where
  pub entry : BattleEntry
  pub listed : lookup battle.battle_id t.battles ≡ some entry
  pub settled : (entry.settled == 1) ≡ true
  pub winner : entry.winner_id ≡ battle.winner_id

pub record Unsettled (battle : Battle) (t : Tables) : Type 0 where
  pub entry : BattleEntry
  pub listed : lookup battle.battle_id t.battles ≡ some entry
  pub unsettled : (entry.settled == 1) ≡ false

-- What one settlement does to the tables: nothing where it is settled, or all of the effect.
abbrev pub Settlement : Battle → List BattlePlayerResult → Tables → Tables → Type 0
Settlement battle rs t t' =
    (IsSettled battle t × (t' ≡ t)) ⊎ (Unsettled battle t × (effect battle rs t ≡ some t'))

exec-select_battle :
    (b : ℕ) (t t' : Tables) (a room_id winner_id settled : ℕ) (rows : List Row)
    → exec (select_battle b) t ≡ some (t', a, rows)
    → the_battle rows ≡ some (room_id, winner_id, settled)
    → (t' ≡ t)
      × (e : BattleEntry) × (lookup b t.battles ≡ some e)
      × (e.winner_id ≡ winner_id)
      × (e.settled ≡ settled)
unfolding exec the_battle
exec-select_battle b t t' a room_id winner_id settled rows h k =
    elim (Option-cases (lookup b t.battles)) [
      | inl e ↦ absurd (ground arith)
      | inr (x, e) ↦ (ground arith, x, e, ground arith, ground arith)
    ]

exec-select_results :
    (b : ℕ) (t t' : Tables) (a : ℕ) (rows : List Row)
    → exec (select_results b) t ≡ some (t', a, rows)
    → t' ≡ t
unfolding exec
exec-select_results b t t' a rows h = cc

module _ (api : MysqlApi) (laws : Transactional api) where
  open laws use {durable, working, Open}

  record Queried (st : Statement) (c : Client api) (r : Client api × List Row) : Type 0 where
    pub held : Held api laws c r.0
    found :
        0 < length r.1
        → Open r.0.db × (a : ℕ) × (exec st (working c.db) ≡ some (working r.0.db, a, r.1))

  query_rows-Queried :
      (st : Statement) (c : Client api)
      → Busy api laws c
      → InSettlement st
      → Queried st c (query_rows api st c)
  unfolding query_rows
  query_rows-Queried st c b s =
      let q = ask-Asked api laws st c b s in
      elim (Option-cases (ask api st c).1) [
        | inl e ↦ rw (e, query_rows) (record { held = q.held; found = λ h. absurd (omega arith) })
        | inr ((a, i, rows), e) ↦
            rw (e, query_rows)
              (record {
                held = q.held;
                found = λ _. let x = q.answered a i rows e in (x.0, a, x.1);
              })
      ]

  -- The work of the transaction: nothing is committed by it, and success means a settlement of
  -- what the transaction sees.
  pub record Works (battle : Battle) (rs : List BattlePlayerResult) (c : Client api)
      (r : Client api × Option Bool) : Type 0 where
    pub held : Held api laws c r.0
    pub did : r.1 ≡ some true → Open r.0.db × Settlement battle rs (working c.db) (working r.0.db)

  Works-false :
      {battle : Battle} {rs : List BattlePlayerResult} {c c' : Client api}
      → Held api laws c c'
      → Works battle rs c (c', some false)
  Works-false h = record { held = h; did = λ e. cc }

  -- From a client that saw the battle settled for this winner.
  confirm_settled-Works :
      (battle : Battle) (rs : List BattlePlayerResult) (winner_id : ℕ) (c : Client api)
      → Busy api laws c
      → 0 < length rs
      → (winner_id ≡ battle.winner_id → IsSettled battle (working c.db))
      → Works battle rs c (confirm_settled api battle rs winner_id c)
  unfolding confirm_settled
  confirm_settled-Works battle rs winner_id c b more seen =
      let q = query_rows-Queried (select_results battle.battle_id) c b tt in
      if_intro (Works battle rs c) (not (winner_id == battle.winner_id))
        (λ _. Works-false (Busy-Held api laws b))
        (λ same.
          if_intro (Works battle rs c)
            (not (length (query_rows api (select_results battle.battle_id) c).1 == length rs))
            (λ _. Works-false q.held)
            (λ size. record {
              held = q.held;
              did = λ e.
                  let f = q.found (ground arith) in
                  (
                    f.0,
                    inl (seen (ground arith), exec-select_results battle.battle_id _ _ f.1 _ f.2),
                  );
            }))

  Works-after :
      {battle : Battle} {rs : List BattlePlayerResult} {c d : Client api}
      {r : Client api × Option Bool}
      → Held api laws c d
      → working d.db ≡ working c.db
      → Works battle rs d r
      → Works battle rs c r
  Works-after {battle} {rs} {c} {d} {r} h e w = record {
    held = Held-trans api laws h w.held;
    did = λ o. ((w.did o).0, subst (λ t. Settlement battle rs t (working r.0.db)) e (w.did o).1);
  }

  pub settle_in_transaction-Works :
      (mysql : Bool) (battle : Battle) (rs : List BattlePlayerResult) (c : Client api)
      → Busy api laws c
      → 0 < length rs
      → Works battle rs c (settle_in_transaction api mysql battle rs c)
  unfolding settle_in_transaction
  settle_in_transaction-Works mysql battle rs c b more =
      let q = query_rows-Queried (select_battle battle.battle_id) c b tt in
      let c' = (query_rows api (select_battle battle.battle_id) c).0 in
      let rows = (query_rows api (select_battle battle.battle_id) c).1 in
      if_intro (Works battle rs c) (not (length rows == 1)) (λ _. Works-false q.held)
        (λ one.
          let f = q.found (ground arith) in
          let busy : Busy api laws c' = record {
            linked = q.held.linked;
            inside = q.held.inside;
            is_open = f.0;
          } in
          elim (Option-cases (the_battle rows)) [
            | inl e ↦ rw e (record { held = q.held; did = λ o. cc })
            | inr ((room_id, winner_id, settled), e) ↦
                let x =
                  exec-select_battle battle.battle_id (working c.db) (working c'.db) f.1 room_id
                    winner_id settled rows f.2 e in
                let listed : lookup battle.battle_id (working c'.db).battles ≡ some x.1 =
                  rw x.0 x.2 in
                rw e (
                  if_intro (Works battle rs c) (not (room_id == battle.room_id))
                    (λ _. Works-false q.held)
                    (λ _. Works-after q.held x.0 (
                      if_intro (Works battle rs c') (settled == 1)
                        (λ is. confirm_settled-Works battle rs winner_id c' busy more (λ w. record {
                          entry = x.1;
                          listed = listed;
                          settled = rw x.4 is;
                          winner = x.3 ∙ w;
                        }))
                        (λ isnt.
                          let s = first_settlement-Settles api laws mysql battle rs c' busy in
                          record {
                            held = s.held;
                            did = λ o. (
                              (s.did o).0,
                              inr (
                                record { entry = x.1; listed = listed; unsettled = rw x.4 isnt },
                                (s.did o).1,
                              ),
                            );
                          }))))
          ])
