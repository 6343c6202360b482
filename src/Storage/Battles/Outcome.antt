-- ===== src/Storage/Battles/Outcome.antt =====
-- A whole call of ApplySettlement: RunTransaction around the work of the transaction.
use cpp_game_room.Base.{
  ◌<◌, ◌≡◌, ◌≢◌, refl, sym, ◌∙◌, subst, ◌⊎◌, inl, inr, Bool, true, false, not, Option, none, some,
  List, arith, if_intro, length,
}
use cpp_game_room.Storage.Statement.{
  Battle, BattlePlayerResult, start_transaction, Reply, failed, done,
}
use cpp_game_room.Storage.Mysql.{
  MysqlApi, Client, disconnect, Connected, after_connect, connect, ensure_connected, roll_back,
  finish_transaction, after_commit, after_start, run_transaction, no_handle, refused, connected,
}
use cpp_game_room.Storage.Battles.{settle_in_transaction}
use cpp_game_room.Storage.Battles.Tables.{Tables, Transactional, Outside}
use cpp_game_room.Storage.Battles.Verdict.{Settlement, Works, settle_in_transaction-Works}

module _ (api : MysqlApi) (laws : Transactional api) where
  open laws use {durable, working, Open, Clean}

  -- What a whole call does: it is outside of a transaction again, and what is committed is as
  -- before or one settlement further, which it is for sure where the call reports success.
  pub record Outcome (battle : Battle) (rs : List BattlePlayerResult) (c : Client api)
      (r : Client api × Option Bool) : Type 0 where
    pub outside : Outside api laws r.0
    pub safe :
        (durable r.0.db ≡ durable c.db) ⊎ Settlement battle rs (durable c.db) (durable r.0.db)
    pub sure : r.1 ≡ some true → Settlement battle rs (durable c.db) (durable r.0.db)

  -- From `c` to `c'` nothing was committed, outside of transactions.
  pub record Idle (c c' : Client api) : Type 0 where
    pub outside : Outside api laws c'
    pub same : durable c'.db ≡ durable c.db

  Outcome-Idle :
      {battle : Battle} {rs : List BattlePlayerResult} {c c' : Client api} (o : Option Bool)
      → Idle c c'
      → o ≢ some true
      → Outcome battle rs c (c', o)
  Outcome-Idle o i h = record { outside = i.outside; safe = inl i.same; sure = λ e. absurd (h e) }

  pub disconnect-Idle : (c : Client api) → Outside api laws c → Idle c (disconnect api c)
  unfolding disconnect
  disconnect-Idle c h =
      if_intro (Idle c) c.conn
        (λ _. record {
          outside = record { ended = h.ended; clean = laws.close_clean c.db };
          same = laws.close_keeps c.db;
        })
        (λ _. record { outside = h; same = refl })

  -- Giving up a connection ends its transaction.
  disconnect-Clean : (c : Client api) → c.conn ≡ true → Clean (disconnect api c).db
  unfolding disconnect
  disconnect-Clean c linked =
      if_intro (λ (d : Client api). Clean d.db) c.conn (λ _. laws.close_clean c.db)
        (λ lost. absurd (ground arith))

  disconnect-ended :
      (c : Client api) → c.in_transaction ≡ false → (disconnect api c).in_transaction ≡ false
  unfolding disconnect
  disconnect-ended c h =
      if_intro (λ (d : Client api). d.in_transaction ≡ false) c.conn (λ _. h) (λ _. h)

  disconnect-keeps : (c : Client api) → durable (disconnect api c).db ≡ durable c.db
  unfolding disconnect
  disconnect-keeps c =
      if_intro (λ (d : Client api). durable d.db ≡ durable c.db) c.conn (λ _. laws.close_keeps c.db)
        (λ _. refl)

  after_connect-Idle :
      (c : Client api) (db' : api.Db) (o : Connected)
      → c.in_transaction ≡ false
      → Clean db'
      → durable db' ≡ durable c.db
      → Idle c (after_connect api c db' o).0
  unfolding after_connect
  after_connect-Idle c db' no_handle h k e = record {
    outside = record { ended = h; clean = k };
    same = e;
  }
  after_connect-Idle c db' refused h k e = record {
    outside = record { ended = h; clean = laws.close_clean db' };
    same = laws.close_keeps db' ∙ e;
  }
  after_connect-Idle c db' connected h k e = record {
    outside = record { ended = h; clean = k };
    same = e;
  }

  connect-Idle : (c : Client api) → Outside api laws c → Idle c (connect api c).0
  unfolding connect
  connect-Idle c h =
      let d = disconnect-Idle c h in
      let db = (disconnect api c).db in
      let a =
        after_connect-Idle (disconnect api c) _ (api.real_connect db).1 d.outside.ended
          (laws.connect_clean db d.outside.clean) (laws.connect_keeps db) in
      if_intro (λ (r : Client api × Bool). Idle c r.0) c.in_transaction
        (λ _. record { outside = h; same = refl })
        (λ _. record { outside = a.outside; same = a.same ∙ d.same })

  pub ensure_connected-Idle :
      (c : Client api) → Outside api laws c → Idle c (ensure_connected api c).0
  unfolding ensure_connected
  ensure_connected-Idle c h =
      if_intro (λ (r : Client api × Bool). Idle c r.0) c.conn
        (λ _. record { outside = h; same = refl }) (λ _. connect-Idle c h)

  roll_back-keeps : (c : Client api) → durable (roll_back api c).db ≡ durable c.db
  unfolding roll_back
  roll_back-keeps c =
      let d = record c { db = (api.rollback c.db).0 } in
      if_intro (λ (e : Client api). durable e.db ≡ durable c.db) (api.rollback c.db).1
        (λ _. laws.rollback_keeps c.db) (λ _. disconnect-keeps d ∙ laws.rollback_keeps c.db)

  roll_back-Outside : (c : Client api) → c.conn ≡ true → Outside api laws (roll_back api c)
  unfolding roll_back
  roll_back-Outside c linked =
      let d = record c { db = (api.rollback c.db).0 } in
      record {
        ended = refl;
        clean =
            if_intro (λ (e : Client api). Clean e.db) (api.rollback c.db).1
              (λ ok. laws.rollback_clean c.db ok) (λ _. disconnect-Clean d linked);
      }

  -- The end after the commit: all of the work is durable, or the answer is lost and none or all
  -- of it is.
  after_commit-Outcome :
      (battle : Battle) (rs : List BattlePlayerResult) (c e : Client api) (ok : Bool)
      → e.conn ≡ true
      → Open e.db
      → durable e.db ≡ durable c.db
      → ((t : Tables) → t ≡ working e.db → Settlement battle rs (durable c.db) t)
      → (api.commit e.db).1 ≡ ok
      → Outcome battle rs c (after_commit api e (api.commit e.db).0 ok)
  unfolding after_commit
  after_commit-Outcome battle rs c e true linked opened same settled h =
      let s = settled _ (laws.commit_works e.db opened h) in
      record {
        outside = record { ended = refl; clean = laws.commit_clean e.db h };
        safe = inr s;
        sure = λ _. s;
      }
  after_commit-Outcome battle rs c e false linked opened same settled h =
      let keeps = disconnect-keeps (record e { db = (api.commit e.db).0 }) in
      record {
        outside = record {
          ended = refl;
          clean = disconnect-Clean (record e { db = (api.commit e.db).0 }) linked;
        };
        safe = elim (laws.commit_fails e.db opened h) [
          | inl none_of_it ↦ inl (keeps ∙ none_of_it ∙ same)
          | inr all_of_it ↦ inr (settled _ (keeps ∙ all_of_it))
        ];
        sure = λ k. cc;
      }

  -- The end of the transaction, from the client before it.
  finish_transaction-Outcome :
      (battle : Battle) (rs : List BattlePlayerResult) (c d e : Client api) (o : Option Bool)
      → durable d.db ≡ durable c.db
      → working d.db ≡ durable c.db
      → Works api laws battle rs d (e, o)
      → Outcome battle rs c (finish_transaction api e o)
  unfolding finish_transaction roll_back
  finish_transaction-Outcome battle rs c d e none same sees w =
      let idle = w.held.same ∙ same in
      if_intro (λ (x : Client api). Outcome battle rs c (x, none)) e.conn
        (λ linked.
          Outcome-Idle none
            (record { outside = roll_back-Outside e linked; same = roll_back-keeps e ∙ idle })
            (λ h. cc))
        (λ lost. absurd (cc (sym w.held.linked ∙ lost)))
  finish_transaction-Outcome battle rs c d e (some false) same sees w =
      let idle = w.held.same ∙ same in
      let linked = w.held.linked in
      if_intro (Outcome battle rs c) (not e.conn) (λ lost. absurd (ground arith))
        (λ _.
          Outcome-Idle (some false)
            (record { outside = roll_back-Outside e linked; same = roll_back-keeps e ∙ idle })
            (λ h. cc))
  finish_transaction-Outcome battle rs c d e (some true) same sees w =
      let idle = w.held.same ∙ same in
      let linked = w.held.linked in
      let works = w.did refl in
      let settled : (t : Tables) → t ≡ working e.db → Settlement battle rs (durable c.db) t = λ t h.
        subst (λ x. Settlement battle rs x t) sees
          (subst (λ x. Settlement battle rs (working d.db) x) (sym h) works.1) in
      if_intro (Outcome battle rs c) (not e.conn) (λ lost. absurd (ground arith))
        (λ _.
          after_commit-Outcome battle rs c e (api.commit e.db).1 linked works.0 idle settled refl)

  after_start-Outcome :
      (mysql : Bool) (battle : Battle) (rs : List BattlePlayerResult) (c d : Client api)
      (reply : Reply)
      → 0 < length rs
      → d.conn ≡ true
      → Idle c d
      → (api.query start_transaction d.db).1 ≡ reply
      → Outcome battle rs c (
          after_start api
            (settle_in_transaction api mysql battle rs)
            d
            (api.query start_transaction d.db).0
            reply)
  unfolding after_start
  after_start-Outcome mysql battle rs c d (failed lost) more linked idle h =
      let e = record d { db = (api.query start_transaction d.db).0 } in
      let clean = disconnect-Clean e linked in
      Outcome-Idle (some false)
        (record {
          outside = record { ended = disconnect-ended e idle.outside.ended; clean = clean };
          same = disconnect-keeps e ∙ laws.start_keeps d.db idle.outside.clean ∙ idle.same;
        })
        (λ k. cc)
  after_start-Outcome mysql battle rs c d (done a id rows) more linked idle h =
      let start = laws.start_opens d.db a id rows idle.outside.clean h in
      let e : Client api = record {
        conn = d.conn;
        in_transaction = true;
        db = (api.query start_transaction d.db).0;
      } in
      finish_transaction-Outcome battle rs c e _ _
        (laws.start_keeps d.db idle.outside.clean ∙ idle.same) (start.1 ∙ idle.same)
        (settle_in_transaction-Works api laws mysql battle rs e
          (record { linked = linked; inside = refl; is_open = start.0 }) more)

  after_connect-linked :
      (c : Client api) (db' : api.Db) (o : Connected)
      → (after_connect api c db' o).1 ≡ true
      → (after_connect api c db' o).0.conn ≡ true
  unfolding after_connect
  after_connect-linked c db' no_handle h = cc
  after_connect-linked c db' refused h = cc
  after_connect-linked c db' connected h = refl

  ensure_connected-linked :
      (c : Client api) → (ensure_connected api c).1 ≡ true → (ensure_connected api c).0.conn ≡ true
  unfolding ensure_connected connect
  ensure_connected-linked c =
      if_intro (λ (r : Client api × Bool). r.1 ≡ true → r.0.conn ≡ true) c.conn (λ h _. h)
        (λ _.
          if_intro (λ (r : Client api × Bool). r.1 ≡ true → r.0.conn ≡ true) c.in_transaction
            (λ _ h. cc) (λ _ h. after_connect-linked (disconnect api c) _ _ h))

  pub run_transaction-Outcome :
      (mysql : Bool) (battle : Battle) (rs : List BattlePlayerResult) (c : Client api)
      → 0 < length rs
      → Outside api laws c
      → Outcome battle rs c (run_transaction api (settle_in_transaction api mysql battle rs) c)
  unfolding run_transaction
  run_transaction-Outcome mysql battle rs c more h =
      let idle = ensure_connected-Idle c h in
      if_intro (Outcome battle rs c) c.in_transaction
        (λ _. Outcome-Idle (some false) (record { outside = h; same = refl }) (λ k. cc))
        (λ _.
          if_intro (Outcome battle rs c) (not (ensure_connected api c).1)
            (λ _. Outcome-Idle (some false) idle (λ k. cc))
            (λ ready.
              after_start-Outcome mysql battle rs c (ensure_connected api c).0 _ more
                (ensure_connected-linked c (ground arith)) idle refl))
