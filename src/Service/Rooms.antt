-- ===== src/Service/Rooms.antt =====
-- src/room/room_manager.cpp: the rooms, readiness and input.
use cpp_game_room.Base.{
  ℕ, ◌+◌, ◌%◌, ◌^◌, Bool, not, Option, none, some, List, [], ◌∷◌, ◌==◌, if◌then◌else◌,
}
use cpp_game_room.Base.Map.{Map, lookup, insert, remove}
use cpp_game_room.Net.Session.{player_id_of, room_id_of}
use cpp_game_room.Player.{PlayerStatus, online, offline, set_status, set_room}
use cpp_game_room.Room.{
  Room, ReadyNotify, new_room, add_player, player_ids, playing, state_value,
  set_ready_and_try_start,
}
use cpp_game_room.Game.Float.{FloatOps}
use cpp_game_room.Game.Battle.{GameRoom, new_game_room, start}
use cpp_game_room.Game.Battle
use cpp_game_room.Service.World.{
  World, Context, Message, ready_notify, room_state_notify, send_all, manager, session_of_player,
  set_session_room, update_player, broadcast_to,
}

-- `room->AddPlayer(player_id)` for each id.
unfoldable pub add_players : List ℕ → Room → Room
unfolding add_player
add_players [] r = r
add_players (p ∷ ps) r = add_players ps (add_player p r).0

-- PlayerInput of src/proto/game.proto.
pub record PlayerInput (F : Type 0) : Type 0 where
  pub player_id : ℕ
  pub input_seq : ℕ
  pub move_x : F
  pub move_y : F
  pub fire : Bool

unfoldable pub room_behind : Option ℕ → Map Room → Option Room
room_behind none rooms = none
room_behind (some room_id) rooms = lookup room_id rooms

unfoldable pub erase_all : List ℕ → Map ℕ → Map ℕ
erase_all [] m = m
erase_all (p ∷ ps) m = erase_all ps (remove p m)

abbrev pub ids_of : Option Room → List ℕ
ids_of none = []
ids_of (some room) = player_ids room

abbrev pub status_for : Option ℕ → PlayerStatus
status_for none = offline
status_for (some s) = online

module _ {F : Type 0} where
  unfoldable pub get_room : ℕ → World F → Option Room
  get_room room_id w = lookup room_id w.rooms

  unfoldable pub get_player_room : ℕ → World F → Option Room
  unfolding room_behind
  get_player_room player_id w = room_behind (lookup player_id w.player_room_map) w.rooms

  -- A write through a pointer to a room.
  abbrev pub put_room : Room → World F → World F
  put_room room w = record w { rooms = insert room.room_id room w.rooms }

  -- GameLoop::AddRoom and RemoveRoom
  unfoldable pub add_battle : GameRoom F → World F → World F
  add_battle g w = record w { battles = insert g.room_id g w.battles }

module _ {F : Type 0} (ctx : Context) where
  -- The loop under the lock of CreateRoom.
  unfoldable pub assign_room : ℕ → List ℕ → World F → World F
  unfolding set_session_room
  assign_room room_id [] w = w
  assign_room room_id (p ∷ ps) w =
      let w' = record w { player_room_map = insert p room_id w.player_room_map } in
      assign_room room_id ps (set_session_room (session_of_player ctx p w') room_id w')

  -- CreateRoom, and the pointer that it returns.
  unfoldable pub create_room : List ℕ → World F → World F × ℕ
  unfolding assign_room add_players
  create_room ids w =
      let room_id = w.next_room_id in
      let room = add_players ids (new_room room_id) in
      let w' = record w {
        next_room_id = (room_id + 1) % 2 ^ 64;
        rooms = insert room_id room w.rooms;
      } in
      (assign_room room_id ids w', room_id)

  -- The second loop of RemoveRoom.
  unfoldable pub release_players : List ℕ → World F → World F
  unfolding set_session_room update_player
  release_players [] w = w
  release_players (p ∷ ps) w =
      let session = session_of_player ctx p w in
      let w' = set_session_room session 0 w in
      release_players ps
        (update_player ctx p (λ q. set_status (status_for session) (set_room 0 q)) w')

  unfoldable pub remove_room : ℕ → World F → World F
  unfolding erase_all release_players
  remove_room room_id w =
      let ids = ids_of (lookup room_id w.rooms) in
      let w' = record w {
        player_room_map = erase_all ids w.player_room_map;
        rooms = remove room_id w.rooms;
      } in
      let w'' = release_players ids w' in
      if ctx.has_loop then record w'' { battles = remove room_id w''.battles } else w''

  -- The loop of StartGameRoom over the players.
  unfoldable pub players_play : ℕ → List ℕ → World F → World F
  unfolding update_player
  players_play room_id [] w = w
  players_play room_id (p ∷ ps) w =
      players_play room_id ps
        (update_player ctx p (λ q. set_room room_id (set_status PlayerStatus.playing q)) w)

module _ (ops : FloatOps) (ctx : Context) where
  open ops use {Float}

  unfoldable pub start_game_room : Room → World Float → World Float
  unfolding players_play add_battle broadcast_to
  start_game_room room w =
      if not ctx.has_loop
      then w
      else let ids = player_ids room in
        let w' = add_battle (start ops ids (new_game_room ops room.room_id)) w in
        let w'' = players_play ctx room.room_id ids w' in
        broadcast_to ctx room (room_state_notify room.room_id (state_value playing) ids) w''

  abbrev pub ready_messages : List (ℕ × ReadyNotify) → List (ℕ × Message Float)
  ready_messages [] = []
  ready_messages ((s, n) ∷ rest) = (s, ready_notify n) ∷ ready_messages rest

  -- HandleReady once the room is found.
  unfoldable pub ready_in : Option Room → ℕ → Bool → World Float → World Float
  unfolding start_game_room send_all
  ready_in none player_id ready w = w
  ready_in (some room) player_id ready w =
      let (room', messages, started) =
        set_ready_and_try_start (manager ctx w) player_id ready room in
      let w' = send_all (ready_messages messages) (put_room room' w) in
      if started then start_game_room room' w' else w'

  -- HandleReady. A request is `none` where the packet does not parse, a session for a null pointer.
  unfoldable pub handle_ready : Option ℕ → Option Bool → World Float → World Float
  unfolding ready_in get_player_room
  handle_ready (some s) (some ready) w =
      let player_id = player_id_of w.objects s in
      ready_in (get_player_room player_id w) player_id ready w
  handle_ready session request w = w

  unfoldable pub input_to :
      Option (GameRoom Float) → ℕ → PlayerInput Float → ℕ → World Float → World Float
  input_to none player_id input now w = w
  input_to (some g) player_id input now w =
      add_battle
        (Battle.handle_input
          (record {
            player_id = if input.player_id == 0 then player_id else input.player_id;
            input_seq = input.input_seq;
            move_x = input.move_x;
            move_y = input.move_y;
            fire = input.fire;
            timestamp_ms = now;
          })
          g)
        w

  -- HandleInput, at the time that NowMs gives.
  unfoldable pub handle_input :
      Option ℕ → Option (PlayerInput Float) → ℕ → World Float → World Float
  unfolding input_to
  handle_input (some s) (some input) now w =
      if ctx.has_loop
      then input_to (lookup (room_id_of w.objects s) w.battles) (player_id_of w.objects s) input now
          w
      else w
  handle_input session request now w = w
