-- ===== src/Service/Leaving.antt =====
-- src/room/room_manager.cpp: players who leave a room.
use cpp_game_room.Base.{ℕ, not, ◌&&◌, Option, none, some, List, [], ◌∷◌, ◌==◌, if◌then◌else◌}
use cpp_game_room.Base.Map.{lookup}
use cpp_game_room.Net.Session.{player_id_of}
use cpp_game_room.Room.{Room, RoomState, waiting, playing, settlement, closed, player_ids}
use cpp_game_room.Game.Battle.{GameRoom, eliminate_player}
use cpp_game_room.Service.World.{
  World, Context, leave_room_resp, player_leave_room_notify, send, broadcast_to,
}
use cpp_game_room.Service.Rooms.{get_player_room, remove_room, add_battle}
use cpp_game_room.Service.Matching.{requeue_player}

-- The first loop of HandleLeaveWaiting.
unfoldable pub others : ℕ → List ℕ → List ℕ
others leaver [] = []
others leaver (p ∷ ps) = let rest = others leaver ps in if not (p == leaver) then p ∷ rest else rest

module _ {F : Type 0} (ctx : Context) where
  unfoldable pub requeue_all : List ℕ → World F → World F
  unfolding requeue_player
  requeue_all [] w = w
  requeue_all (p ∷ ps) w = requeue_all ps (requeue_player ctx p w).0

  unfoldable pub handle_leave_waiting : ℕ → Room → World F → World F
  unfolding broadcast_to send remove_room requeue_all others
  handle_leave_waiting s room w =
      let leaver = player_id_of w.objects s in
      let requeued = others leaver (player_ids room) in
      let w1 = broadcast_to ctx room (player_leave_room_notify room.room_id leaver 1) w in
      let w2 = send s (leave_room_resp 0 "left room") w1 in
      let w3 = remove_room ctx room.room_id w2 in
      if not ctx.has_match then w3 else requeue_all requeued w3

  -- HandleLeavePlaying once the battle is found.
  unfoldable pub surrender : Option (GameRoom F) → ℕ → Room → World F → World F
  unfolding send broadcast_to add_battle
  surrender none s room w = send s (leave_room_resp 4 "game not running") w
  surrender (some g) s room w =
      let player_id = player_id_of w.objects s in
      let w1 = add_battle (eliminate_player player_id g) w in
      let w2 = broadcast_to ctx room (player_leave_room_notify room.room_id player_id 2) w1 in
      send s (leave_room_resp 0 "surrendered") w2

  unfoldable pub handle_leave_playing : ℕ → Room → World F → World F
  unfolding send surrender
  handle_leave_playing s room w =
      if not ctx.has_loop
      then send s (leave_room_resp 4 "game not running") w
      else surrender (lookup room.room_id w.battles) s room w

  -- HandleLeaveRoom by the state of the room.
  unfoldable pub leave_in : RoomState → ℕ → Room → World F → World F
  unfolding handle_leave_waiting handle_leave_playing send
  leave_in waiting s room w = handle_leave_waiting s room w
  leave_in playing s room w = handle_leave_playing s room w
  leave_in settlement s room w = send s (leave_room_resp 3 "room closing") w
  leave_in closed s room w = send s (leave_room_resp 3 "room closing") w

  unfoldable pub leave_from : Option Room → ℕ → ℕ → World F → World F
  unfolding send leave_in
  leave_from none s room_id w = send s (leave_room_resp 2 "not in room") w
  leave_from (some room) s room_id w =
      if not (room_id == 0) && not (room_id == room.room_id)
      then send s (leave_room_resp 2 "not in room") w
      else leave_in room.state s room w

  -- HandleLeaveRoom, of the room id of a request.
  unfoldable pub handle_leave_room : Option ℕ → Option ℕ → World F → World F
  unfolding send leave_from get_player_room
  handle_leave_room none request w = w
  handle_leave_room (some s) none w = send s (leave_room_resp 1 "bad request") w
  handle_leave_room (some s) (some room_id) w =
      leave_from (get_player_room (player_id_of w.objects s) w) s room_id w
