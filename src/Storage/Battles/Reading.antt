-- ===== src/Storage/Battles/Reading.antt =====
-- Reading a player outside of a transaction, whatever fails in it, commits nothing.
use cpp_game_room.Base.{
  ℕ, ◌≡◌, refl, ◌∙◌, inl, inr, Bool, not, ◌||◌, Option, List, if_intro, Option-cases,
}
use cpp_game_room.Storage.Statement.{PlayerData, select_player, Row, Reply, failed, done}
use cpp_game_room.Storage.Mysql.{
  MysqlApi, Client, ensure_connected, reset_on_connection_error, receive, ask, query_rows,
}
use cpp_game_room.Storage.Players.{find_player}
use cpp_game_room.Storage.Battles.Tables.{Transactional, Outside}
use cpp_game_room.Storage.Battles.Outcome.{Idle, ensure_connected-Idle, disconnect-Idle}

module _ (api : MysqlApi) (laws : Transactional api) where
  open laws use {durable, Clean}

  pub Idle-refl : (c : Client api) → Outside api laws c → Idle api laws c c
  Idle-refl c h = record { outside = h; same = refl }

  pub Idle-trans : {c d e : Client api} → Idle api laws c d → Idle api laws d e → Idle api laws c e
  Idle-trans h k = record { outside = k.outside; same = k.same ∙ h.same }

  reset-Idle :
      (lost : Bool) (c : Client api)
      → Outside api laws c
      → Idle api laws c (reset_on_connection_error api lost c)
  unfolding reset_on_connection_error
  reset-Idle lost c h =
      if_intro (Idle api laws c) (not c.conn || c.in_transaction) (λ _. Idle-refl c h)
        (λ _.
          if_intro (Idle api laws c) lost (λ _. disconnect-Idle api laws c h) (λ _. Idle-refl c h))

  receive-Idle :
      (c : Client api) (db' : api.Db) (reply : Reply)
      → Outside api laws c
      → Clean db'
      → durable db' ≡ durable c.db
      → Idle api laws c (receive api c db' reply).0
  unfolding receive
  receive-Idle c db' (failed lost) h k e =
      let d : Client api = record c { db = db' } in
      let o : Outside api laws d = record { ended = h.ended; clean = k } in
      Idle-trans {d = d} (record { outside = o; same = e }) (reset-Idle lost d o)
  receive-Idle c db' (done a i rows) h k e = record {
    outside = record { ended = h.ended; clean = k };
    same = e;
  }

  ask-player-Idle :
      (p : ℕ) (c : Client api)
      → Outside api laws c
      → Idle api laws c (ask api (select_player p) c).0
  unfolding ask
  ask-player-Idle p c h =
      let i = ensure_connected-Idle api laws c h in
      let d = (ensure_connected api c).0 in
      if_intro (λ (r : Client api × Option (ℕ × ℕ × List Row)). Idle api laws c r.0)
        (not (ensure_connected api c).1) (λ _. i)
        (λ _. Idle-trans i (
          receive-Idle d _ _ i.outside (laws.read_clean d.db p i.outside.clean)
            (laws.read_keeps d.db p i.outside.clean)))

  query_rows-player-Idle :
      (p : ℕ) (c : Client api)
      → Outside api laws c
      → Idle api laws c (query_rows api (select_player p) c).0
  unfolding query_rows
  query_rows-player-Idle p c h =
      let q = ask-player-Idle p c h in
      elim (Option-cases (ask api (select_player p) c).1) [
        | inl e ↦ rw (e, query_rows) q
        | inr (x, e) ↦ rw (e, query_rows) q
      ]

  pub find_player-Idle :
      (mysql : Bool) (p : ℕ) (c : Client api)
      → Outside api laws c
      → Idle api laws c (find_player api mysql p c).0
  unfolding find_player
  find_player-Idle mysql p c h =
      if_intro (λ (r : Client api × Option PlayerData). Idle api laws c r.0) (not mysql)
        (λ _. Idle-refl c h) (λ _. query_rows-player-Idle p c h)
