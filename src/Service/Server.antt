-- ===== src/Service/Server.antt =====
-- src/server/game_server.cpp and src/game/game_loop.cpp: the rounds of the game loop with the
-- callback that broadcasts and settles, the check of heartbeats, and connections that come and go.
use cpp_game_room.Base.{
  ℕ, ◌+◌, ◌%◌, ◌^◌, Bool, true, false, not, ◌||◌, Option, none, some, List, [], ◌∷◌, ◌==◌, ltb,
  if◌then◌else◌,
}
use cpp_game_room.Base.Map.{Map, lookup, insert, remove, keys}
use cpp_game_room.Net.Session.{new_session, player_id_of, room_id_of, read}
use cpp_game_room.Net.Connections.{add, remove_session, get_by_player_id, all_sessions}
use cpp_game_room.Player.{set_offline}
use cpp_game_room.Room.{Room, set_settlement, close, on_player_disconnect}
use cpp_game_room.Game.Float.{FloatOps}
use cpp_game_room.Game.State.{EntityState, GameState}
use cpp_game_room.Game.Battle.{GameRoom, tick}
use cpp_game_room.Game.Settlement.{RankService, settle_battle}
use cpp_game_room.Storage.Mysql.{MysqlApi, Client}
use cpp_game_room.Storage.Battles.{create_battle}
use cpp_game_room.Service.World.{
  World, Context, Message, PlayerState, game_state_notify, game_over_notify, broadcast_to,
  close_session,
}
use cpp_game_room.Service.Rooms.{get_room, put_room, remove_room, add_battle}

-- StateSync::BuildNotify
unfoldable pub player_states : {F : Type 0} → Map (EntityState F) → List (PlayerState F)
player_states [] = []
player_states ((k, e) ∷ m) =
    record { player_id = e.player_id; x = e.x; y = e.y; hp = e.hp } ∷ player_states m

unfoldable pub build_notify : {F : Type 0} → ℕ → GameState F → Message F
unfolding player_states
build_notify room_id state = game_state_notify room_id state.frame_id (player_states state.players)

-- The loop of the callback over the players of a battle that is over.
unfoldable pub losers_of : {F : Type 0} → ℕ → Map (EntityState F) → List ℕ
losers_of winner_id [] = []
losers_of winner_id ((k, e) ∷ m) =
    let rest = losers_of winner_id m in if not (k == winner_id) then k ∷ rest else rest

-- GameServer::PendingSettlement. A time_point is its count of nanoseconds.
pub record PendingSettlement : Type 0 where
  pub battle_id : ℕ
  pub next_attempt : ℕ

-- pending_settlements_[room_id]
abbrev pub pending_or_new : Option PendingSettlement → PendingSettlement
pending_or_new none = record { battle_id = 0; next_attempt = 0 }
pending_or_new (some p) = p

-- What the loop's thread works on: the services, MySQL, the ranking and the settlements to come.
pub record Server (F D S : Type 0) : Type 0 where
  pub world : World F
  pub mysql : D
  pub store : S
  pub pending : Map PendingSettlement

module _ (api : MysqlApi) where
  -- CreateBattle, unless an earlier attempt has the id already.
  unfoldable pub battle_id_for : ℕ → ℕ → Client api → Client api × ℕ
  battle_id_for room_id known c =
      if known == 0 then create_battle api true room_id c else (c, known)

module _ (api : MysqlApi) (ranks : RankService) (ctx : Context) {F : Type 0} where
  open ranks use {Store}

  -- The end of the callback, after a settlement that succeeded.
  unfoldable pub finish_room : Room → GameRoom F → World F → World F
  unfolding broadcast_to remove_room losers_of
  finish_room room g w =
      let over = game_over_notify g.room_id g.winner_id (losers_of g.winner_id g.state.players) in
      let w' = broadcast_to ctx room over w in remove_room ctx g.room_id (put_room (close room) w')

  -- The callback after SettleBattle: the state, and false for an exception that leaves it.
  unfoldable pub after_attempt :
      Room
      → GameRoom F
      → World F
      → Map PendingSettlement
      → (Client api × Store) × Option Bool
      → Server F (Client api) Store × Bool
  unfolding finish_room
  after_attempt room g w pending (r, none) =
      (record { world = w; mysql = r.0; store = r.1; pending = pending }, false)
  after_attempt room g w pending (r, some false) =
      (record { world = w; mysql = r.0; store = r.1; pending = pending }, true)
  after_attempt room g w pending (r, some true) = (
    record {
      world = finish_room room g w;
      mysql = r.0;
      store = r.1;
      pending = remove g.room_id pending;
    },
    true,
  )

  -- An attempt to settle, at a time when it is due.
  unfoldable pub attempt :
      Room
      → GameRoom F
      → PendingSettlement
      → Server F (Client api) Store
      → Server F (Client api) Store × Bool
  unfolding battle_id_for after_attempt losers_of
  attempt room g p v =
      let (c, battle_id) = battle_id_for api g.room_id p.battle_id v.mysql in
      let p' : PendingSettlement = record p { battle_id = battle_id } in
      let pending' = insert g.room_id p' v.pending in
      if battle_id == 0
      then (record v { mysql = c; pending = pending' }, true)
      else after_attempt room g v.world pending' (
          settle_battle api ranks (some true) (some true) true battle_id g.room_id g.winner_id
            (losers_of g.winner_id g.state.players) c v.store)

  -- The callback for a battle that is over, at the time that steady_clock gives.
  unfoldable pub settle_room :
      Room → GameRoom F → ℕ → Server F (Client api) Store → Server F (Client api) Store × Bool
  unfolding attempt
  settle_room room g now v =
      let p = pending_or_new (lookup g.room_id v.pending) in
      let p' : PendingSettlement = record p { next_attempt = (now + 1000000000) % 2 ^ 64 } in
      if ltb now p.next_attempt
      then (record v { pending = insert g.room_id p v.pending }, true)
      else attempt room g p' (record v { pending = insert g.room_id p' v.pending })

  -- The tick callback of a battle, for the room that GetRoom gives.
  unfoldable pub tick_callback :
      Option Room
      → GameRoom F
      → ℕ
      → Server F (Client api) Store
      → Server F (Client api) Store × Bool
  unfolding settle_room broadcast_to build_notify
  tick_callback none g now v = (v, true)
  tick_callback (some room) g now v =
      let w = broadcast_to ctx room (build_notify g.room_id g.state) v.world in
      if not g.game_over
      then (record v { world = w }, true)
      else let room' = set_settlement room in
        settle_room room' g now (record v { world = put_room room' w })

module _ (api : MysqlApi) (ranks : RankService) (ctx : Context) (ops : FloatOps) where
  open ranks use {Store}
  open ops use {Float}

  -- One battle of a round: its tick, and the callback. A battle that is not in the loop any more
  -- has no room either, and its callback does nothing.
  unfoldable pub tick_battle :
      Option (GameRoom Float)
      → ℕ
      → Server Float (Client api) Store
      → Server Float (Client api) Store × Bool
  unfolding tick_callback get_room
  tick_battle none now v = (v, true)
  tick_battle (some g) now v =
      let g' = tick ops g in
      let w = add_battle g' v.world in
      tick_callback api ranks ctx (get_room g'.room_id w) g' now (record v { world = w })

  -- The loop over the snapshot of the rooms; each callback reads the clock.
  unfoldable pub tick_battles :
      List ℕ → ℕ → Server Float (Client api) Store → Server Float (Client api) Store × Bool
  unfolding tick_battle
  tick_battles [] now v = (v, true)
  tick_battles (room_id ∷ ids) now v =
      let (v', ok) = tick_battle (lookup room_id v.world.battles) now v in
      let rest = tick_battles ids now v' in if not ok then (v', false) else rest

  -- A round of GameLoop::Loop.
  unfoldable pub loop_round :
      ℕ → Server Float (Client api) Store → Server Float (Client api) Store × Bool
  unfolding tick_battles
  loop_round now v = tick_battles (keys v.world.battles) now v

-- Whether another session than `s` is bound to the player.
abbrev pub is_other : ℕ → Option ℕ → Bool
is_other s none = false
is_other s (some t) = not (t == s)

module _ {F : Type 0} where
  -- The timer's check of the heartbeats.
  unfoldable pub check_each : ℕ → List ℕ → World F → World F
  unfolding close_session
  check_each now [] w = w
  check_each now (s ∷ ss) w = check_each now ss (
      if ltb (read (λ o. o.last_heartbeat_ms) 0 (lookup s w.objects) + 30000) now
      then close_session s w
      else w)

  unfoldable pub check_heartbeats : ℕ → World F → World F
  unfolding check_each all_sessions
  check_heartbeats now w = check_each now (all_sessions w.connections) w

  -- TcpServer::DoAccept for a connection that came, with the id that NextSessionId gave.
  unfoldable pub accept : ℕ → ℕ → World F → World F
  unfolding new_session add
  accept session_id now w =
      let objects' = insert session_id (new_session session_id true now) w.objects in
      record w { objects = objects'; connections = add objects' (some session_id) w.connections }

  unfoldable pub disconnect_from : Option Room → ℕ → World F → World F
  disconnect_from none p w = w
  disconnect_from (some room) p w = put_room (on_player_disconnect p room) w

  -- GameServer's callback for a session that closed.
  unfoldable pub session_closed : ℕ → World F → World F
  unfolding disconnect_from get_room
  session_closed s w =
      let p = player_id_of w.objects s in
      let room_id = room_id_of w.objects s in
      if p == 0 || is_other s (get_by_player_id p w.connections)
      then w
      else let w' = record w { players = set_offline p w.players } in
        if room_id == 0 then w' else disconnect_from (get_room room_id w') p w'

  -- The close callback of a connection.
  unfoldable pub connection_closed : ℕ → World F → World F
  unfolding session_closed remove_session
  connection_closed s w =
      session_closed s (record w { connections = remove_session w.objects s w.connections })
