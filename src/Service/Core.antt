-- ===== src/Service/Core.antt =====
-- What of the services' state the handlers read to decide: rooms, mapping, ids, queue, battles and
-- connections. Sends and writes to players and sessions leave it as it is.
use cpp_game_room.Base.{
  ℕ, ◌+◌, ◌%◌, ◌^◌, ◌≡◌, refl, ap, ◌∙◌, Bool, true, false, Option, none, some, List, [], ◌∷◌,
  if◌then◌else◌, arith,
}
use cpp_game_room.Base.Map.{Map, lookup, insert, remove}
use cpp_game_room.Player.{Player, in_room, set_status, set_room}
use cpp_game_room.Net.Connections.{ConnectionManager}
use cpp_game_room.Match.Queue.{MatchQueue}
use cpp_game_room.Room.{Room, new_room, broadcast}
use cpp_game_room.Game.Battle.{GameRoom}
use cpp_game_room.Service.World.{
  World, Context, Message, match_success_notify, send, send_all, close_session, set_session_room,
  update_player, session_of_player, broadcast_to, manager,
}
use cpp_game_room.Service.Rooms.{
  add_players, assign_room, create_room, release_players, remove_room, ids_of, erase_all,
  players_play,
}
use cpp_game_room.Service.Matching.{send_to, notify_players, make_room}

pub record Core (F : Type 0) : Type 0 where
  pub rooms : Map Room
  pub player_room_map : Map ℕ
  pub next_room_id : ℕ
  pub queue : MatchQueue
  pub battles : Map (GameRoom F)
  pub connections : ConnectionManager

module _ {F : Type 0} where
  abbrev pub core : World F → Core F
  core w = record {
    rooms = w.rooms;
    player_room_map = w.player_room_map;
    next_room_id = w.next_room_id;
    queue = w.queue;
    battles = w.battles;
    connections = w.connections;
  }

  pub core-send : (s : ℕ) (m : Message F) (w : World F) → core (send s m w) ≡ core w
  unfolding send
  core-send s m w = ground arith

  pub core-send_all : (ms : List (ℕ × Message F)) (w : World F) → core (send_all ms w) ≡ core w
  unfolding send_all
  core-send_all [] w = refl
  core-send_all ((s, m) ∷ ms) w = core-send_all ms (send s m w) ∙ core-send s m w

  pub core-close_session : (s : ℕ) (w : World F) → core (close_session s w) ≡ core w
  unfolding close_session
  core-close_session s w = ground arith

  pub core-set_session_room :
      (s : Option ℕ) (room_id : ℕ) (w : World F) → core (set_session_room s room_id w) ≡ core w
  unfolding set_session_room
  core-set_session_room none room_id w = refl
  core-set_session_room (some s) room_id w = refl

  pub core-update_player :
      (ctx : Context) (p : ℕ) (f : Player → Player) (w : World F)
      → core (update_player ctx p f w) ≡ core w
  unfolding update_player
  core-update_player ctx p f w = ground arith

  pub core-broadcast_to :
      (ctx : Context) (room : Room) (m : Message F) (w : World F)
      → core (broadcast_to ctx room m w) ≡ core w
  unfolding broadcast_to
  core-broadcast_to ctx room m w = core-send_all (broadcast (manager ctx w) m room) w

  pub core-send_to : (s : Option ℕ) (m : Message F) (w : World F) → core (send_to s m w) ≡ core w
  core-send_to none m w = refl
  core-send_to (some s) m w = core-send s m w

-- player_room_map[p] = room_id, for each p.
abbrev pub insert_all : List ℕ → ℕ → Map ℕ → Map ℕ
insert_all [] room_id m = m
insert_all (p ∷ ps) room_id m = insert_all ps room_id (insert p room_id m)

-- A room of the players `ids`, on the core.
abbrev pub with_room : {F : Type 0} → List ℕ → Core F → Core F
with_room ids c = record c {
  next_room_id = (c.next_room_id + 1) % 2 ^ 64;
  rooms = insert c.next_room_id (add_players ids (new_room c.next_room_id)) c.rooms;
  player_room_map = insert_all ids c.next_room_id c.player_room_map;
}

module _ {F : Type 0} (ctx : Context) where
  pub core-notify_players :
      (room_id : ℕ) (all ids : List ℕ) (w : World F)
      → core (notify_players ctx room_id all ids w) ≡ core w
  unfolding notify_players
  core-notify_players room_id all [] w = refl
  core-notify_players room_id all (p ∷ ps) w =
      core-notify_players room_id all ps _
      ∙ core-send_to _ (match_success_notify room_id all) _
      ∙ core-update_player ctx p (λ q. set_room room_id (set_status in_room q)) w

  pub core-players_play :
      (room_id : ℕ) (ids : List ℕ) (w : World F) → core (players_play ctx room_id ids w) ≡ core w
  unfolding players_play
  core-players_play room_id [] w = refl
  core-players_play room_id (p ∷ ps) w =
      core-players_play room_id ps _ ∙ core-update_player ctx p _ w

  pub core-release_players :
      (ids : List ℕ) (w : World F) → core (release_players ctx ids w) ≡ core w
  unfolding release_players
  core-release_players [] w = refl
  core-release_players (p ∷ ps) w =
      core-release_players ps _
      ∙ core-update_player ctx p _ _
      ∙ core-set_session_room (session_of_player ctx p w) 0 w

  core-assign_room :
      (room_id : ℕ) (ids : List ℕ) (w : World F)
      → core (assign_room ctx room_id ids w)
        ≡ record (core w) { player_room_map = insert_all ids room_id w.player_room_map }
  unfolding assign_room
  core-assign_room room_id [] w = refl
  core-assign_room room_id (p ∷ ps) w =
      let w' = record w { player_room_map = insert p room_id w.player_room_map } in
      let s = session_of_player ctx p w' in
      core-assign_room room_id ps (set_session_room s room_id w')
      ∙ ap (λ (c : Core F). record c { player_room_map = insert_all ps room_id c.player_room_map })
          (core-set_session_room s room_id w')

  pub core-make_room :
      (ids : List ℕ) (w : World F) → core (make_room ctx ids w) ≡ with_room ids (core w)
  unfolding make_room create_room
  core-make_room ids w =
      core-notify_players w.next_room_id ids ids _ ∙ core-assign_room w.next_room_id ids _

  -- A room and its battle gone, on the core.
  abbrev pub without_room : ℕ → Core F → Core F
  without_room room_id c = record c {
    player_room_map = erase_all (ids_of (lookup room_id c.rooms)) c.player_room_map;
    rooms = remove room_id c.rooms;
    battles = if ctx.has_loop then remove room_id c.battles else c.battles;
  }

  core-without_battle :
      (room_id : ℕ) (b : Bool) (w : World F)
      → core (if b then record w { battles = remove room_id w.battles } else w)
        ≡ record (core w) { battles = if b then remove room_id w.battles else w.battles }
  core-without_battle room_id true w = refl
  core-without_battle room_id false w = refl

  pub core-remove_room :
      (room_id : ℕ) (w : World F) → core (remove_room ctx room_id w) ≡ without_room room_id (core w)
  unfolding remove_room
  core-remove_room room_id w =
      let ids = ids_of (lookup room_id w.rooms) in
      let w' = record w {
        player_room_map = erase_all ids w.player_room_map;
        rooms = remove room_id w.rooms;
      } in
      core-without_battle room_id ctx.has_loop (release_players ctx ids w')
      ∙ ap
          (λ (c : Core F). record c {
            battles = if ctx.has_loop then remove room_id c.battles else c.battles;
          })
          (core-release_players ids w')
