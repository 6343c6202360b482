-- ===== src/Service/Histories.antt =====
-- Histories of the server: requests, logins, connections, heartbeat checks and rounds of the loop in
-- any order. A login is two events, as the services' other work may come between its halves.
use cpp_game_room.Base.{◌+◌, ℕ, ◌^◌, ◌<◌, ◌≡◌, Bool, true, Option, List, [], ◌∷◌, length, String}
use cpp_game_room.Base.Map.{lookup}
use cpp_game_room.Game.Float.{FloatOps}
use cpp_game_room.Game.Settlement.{RankService}
use cpp_game_room.Match.Queue.{empty}
use cpp_game_room.Match.Queue.Refinement.{empty-Inv}
use cpp_game_room.Net.Connections.{no_connections}
use cpp_game_room.Storage.Mysql.{MysqlApi, Client}
use cpp_game_room.Storage.Statement.{PlayerData}
use cpp_game_room.Service.World.{World, Context}
use cpp_game_room.Service.Rooms.{PlayerInput, handle_ready, handle_input}
use cpp_game_room.Service.Matching.{handle_match, handle_cancel_match}
use cpp_game_room.Service.Leaving.{handle_leave_room}
use cpp_game_room.Service.Login.{
  LoginService, begin_login, finish_login, handle_reconnect, handle_heartbeat,
}
use cpp_game_room.Service.Server.{Server, loop_round, check_heartbeats, accept, connection_closed}
use cpp_game_room.Service.Core.{core}
use cpp_game_room.Service.Consistent.{Consistent}
use cpp_game_room.Service.Requests.{Good, handle_match-Good, handle_cancel_match-Good}
use cpp_game_room.Service.Handlers.{
  left_by, handle_leave_room-Good, handle_ready-Good, handle_input-Good,
}
use cpp_game_room.Service.Sessions.{
  begin_login-Good, finish_login-Good, handle_reconnect-Good, handle_heartbeat-Good,
  check_heartbeats-Good, accept-Good, connection_closed-Good,
}
use cpp_game_room.Service.Ticks.{loop_round-Good}

pub data Event (F : Type 0) : Type 0 where
  matches cancels leaves : Option ℕ → Option ℕ → Event F
  readies : Option ℕ → Option Bool → Event F
  inputs : Option ℕ → Option (PlayerInput F) → ℕ → Event F
  heartbeats : Option ℕ → ℕ → ℕ → Event F
  reconnects : Option ℕ → Option (ℕ × String) → LoginService → Event F
  begins_login : ℕ → ℕ → ℕ → Event F
  ends_login : PlayerData → String → ℕ → ℕ → Event F
  accepts : ℕ → ℕ → Event F
  closes checks rounds : ℕ → Event F

-- Before the first connection. The ids of rooms start at 1000.
abbrev pub new_world : {F : Type 0} → World F
new_world = record {
  objects = [];
  connections = no_connections;
  players = record { players = []; online_sessions = [] };
  rooms = [];
  player_room_map = [];
  next_room_id = 1000;
  queue = empty;
  battles = [];
  sent = [];
  closing = [];
}

pub new_world-Consistent : {F : Type 0} → Consistent (core (new_world {F = F}))
unfolding lookup
new_world-Consistent = record {
  keyed = λ id r e. absurd (cc e);
  mapped = λ p id e. absurd (cc e);
  battling = λ id g e. absurd (cc e);
  agree = empty-Inv;
}

module _ (api : MysqlApi) (ranks : RankService) (ctx : Context) (ops : FloatOps) where
  open ranks use {Store}
  open ops use {Float}

  abbrev with_world :
      Server Float (Client api) Store → World Float → Server Float (Client api) Store
  with_world v w = record v { world = w }

  unfoldable pub handle :
      Event Float → Server Float (Client api) Store → Server Float (Client api) Store
  handle (matches s request) v = with_world v (handle_match ctx s request v.world)
  handle (cancels s request) v = with_world v (handle_cancel_match ctx s request v.world)
  handle (leaves s request) v = with_world v (handle_leave_room ctx s request v.world)
  handle (readies s request) v = with_world v (handle_ready ops ctx s request v.world)
  handle (inputs s request now) v = with_world v (handle_input ops ctx s request now v.world)
  handle (heartbeats s now later) v = with_world v (handle_heartbeat ctx s now later v.world)
  handle (reconnects s request l) v = with_world v (handle_reconnect ctx s request l v.world)
  handle (begins_login s p now) v = with_world v (begin_login ctx s p now v.world)
  handle (ends_login d token s p) v = with_world v (finish_login ctx d token s p v.world)
  handle (accepts s now) v = with_world v (accept s now v.world)
  handle (closes s) v = with_world v (connection_closed s v.world)
  handle (checks now) v = with_world v (check_heartbeats now v.world)
  handle (rounds now) v = (loop_round api ranks ctx ops now v).0

  unfoldable pub run :
      List (Event Float) → Server Float (Client api) Store → Server Float (Client api) Store
  run [] v = v
  run (e ∷ es) v = run es (handle e v)

-- The players whom an event may add to the queue, at most.
abbrev pub asked : {F : Type 0} → Event F → World F → ℕ
asked (matches s request) w = 1
asked (leaves s request) w = left_by s w
asked _ w = 0

module _ (api : MysqlApi) (ranks : RankService) (ctx : Context) (ops : FloatOps) where
  open ranks use {Store}
  open ops use {Float}

  -- The counter of room ids does not wrap: it could number a room for each player who waits or is
  -- added, at every event.
  abbrev pub Fits : List (Event Float) → Server Float (Client api) Store → Type 0
  Fits [] v = Unit {0}
  Fits (e ∷ es) v =
      (v.world.next_room_id + length v.world.queue.queue + asked e v.world < 2 ^ 64)
      × Fits es (handle api ranks ctx ops e v)

  handle-Consistent :
      ctx.has_loop ≡ true
      → (e : Event Float) (v : Server Float (Client api) Store)
      → Good (asked e v.world) (core v.world)
      → Consistent (core (handle api ranks ctx ops e v).world)
  unfolding handle
  handle-Consistent h (matches s request) v g = (handle_match-Good ctx s request v.world g).0
  handle-Consistent h (cancels s request) v g = (handle_cancel_match-Good ctx s request v.world g).0
  handle-Consistent h (leaves s request) v g = (handle_leave_room-Good ctx h s request v.world g).0
  handle-Consistent h (readies s request) v g = (handle_ready-Good ops ctx s request v.world g).0
  handle-Consistent h (inputs s request now) v g =
      (handle_input-Good ops ctx s request now v.world g).0
  handle-Consistent h (heartbeats s now later) v g =
      (handle_heartbeat-Good ctx s now later v.world g).0
  handle-Consistent h (reconnects s request l) v g =
      (handle_reconnect-Good ctx s request l v.world g).0
  handle-Consistent h (begins_login s p now) v g = (begin_login-Good ctx s p now v.world g).0
  handle-Consistent h (ends_login d token s p) v g = (finish_login-Good ctx d token s p v.world g).0
  handle-Consistent h (accepts s now) v g = (accept-Good s now v.world g).0
  handle-Consistent h (closes s) v g = (connection_closed-Good s v.world g).0
  handle-Consistent h (checks now) v g = (check_heartbeats-Good now v.world g).0
  handle-Consistent h (rounds now) v g = (loop_round-Good api ranks ctx h ops now v g).0

  -- With a game loop, and room ids that do not wrap in the history: after requests, logins,
  -- connections, heartbeat checks and rounds of the loop in any order, from a state in which the
  -- maps agree, they agree again: each room is under its id, a player who is mapped to a room is
  -- one of its players, each battle has its room, and the queue's deque and set hold the same
  -- players.
  pub run-Consistent :
      ctx.has_loop ≡ true
      → (es : List (Event Float)) (v : Server Float (Client api) Store) → Consistent (core v.world)
      → Fits es v
      → Consistent (core (run api ranks ctx ops es v).world)
  unfolding run
  run-Consistent h [] v c f = c
  run-Consistent h (e ∷ es) v c f =
      run-Consistent h es (handle api ranks ctx ops e v) (handle-Consistent h e v (c, f.0)) f.1
