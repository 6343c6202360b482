-- ===== src/Service/Handlers.antt =====
-- The handlers of ready, input and leave requests: the maps still agree.
use cpp_game_room.Base.{
  if_intro, ℕ, ◌≤◌, ◌≡◌, sym, ◌∙◌, subst, Bool, true, not, ◌&&◌, Option, none, some, List, [], ◌∷◌,
  ◌==◌, arith, length,
}
use cpp_game_room.Net.Session.{player_id_of, room_id_of}
use cpp_game_room.Base.Map.{lookup}
use cpp_game_room.Room.{
  Room, player_ids, waiting, playing, settlement, closed, RoomState, state_value,
  set_ready_and_try_start,
}
use cpp_game_room.Game.Float.{FloatOps}
use cpp_game_room.Game.Battle.{GameRoom, eliminate_player, start, new_game_room}
use cpp_game_room.Game.Battle
use cpp_game_room.Service.World.{
  World, Context, Message, send, send_all, player_leave_room_notify, leave_room_resp,
  room_state_notify, broadcast_to, manager,
}
use cpp_game_room.Service.Rooms.{
  PlayerInput, get_player_room, ids_of, remove_room, add_battle, put_room, start_game_room,
  players_play, ready_messages, ready_in, handle_ready, input_to, handle_input,
}
use cpp_game_room.Service.Leaving.{
  others, handle_leave_waiting, surrender, handle_leave_playing, leave_in, leave_from,
  handle_leave_room,
}
use cpp_game_room.Service.Core.{
  Core, core, core-send_all, core-broadcast_to, core-remove_room, core-players_play,
}
use cpp_game_room.Service.Consistent.{Present, insert-new, without_room-Consistent}
use cpp_game_room.Service.Requests.{Good, same-Good, send-Good, requeue_all-Good}
use cpp_game_room.Service.Stored.{
  Stored, Running, lookup-Running, get_player_room-Stored, put_room-Good, add_battle-Good,
  eliminate_player-room_id, set_ready_and_try_start-room_id, set_ready_and_try_start-has,
}

others-length : (p : ℕ) (ids : List ℕ) → length (others p ids) ≤ length ids
unfolding others
others-length p [] = omega arith
others-length p (q ∷ ids) = ground (arith, others-length p ids)

-- The number of the players who may ask for a new match when the session leaves.
abbrev pub left_by : {F : Type 0} → Option ℕ → World F → ℕ
left_by none w = 0
left_by (some s) w = length (ids_of (get_player_room (player_id_of w.objects s) w))

module _ {F : Type 0} (ctx : Context) (loop_set : ctx.has_loop ≡ true) where
  broadcast_to-Good :
      (n : ℕ) (r : Room) (m : Message F) (w : World F)
      → Good n (core w)
      → Good n (core (broadcast_to ctx r m w))
  broadcast_to-Good n r m w g = same-Good n (core-broadcast_to ctx r m w) g

  pub remove_room-Good :
      (n id : ℕ) (w : World F) → Good n (core w) → Good n (core (remove_room ctx id w))
  remove_room-Good n id w g =
      same-Good n (core-remove_room ctx id w)
        (without_room-Consistent (core w) g.0 ctx id loop_set, g.1)

  handle_leave_waiting-Good :
      (s : ℕ) (r : Room) (w : World F)
      → Good (length (player_ids r)) (core w)
      → Good 0 (core (handle_leave_waiting ctx s r w))
  unfolding handle_leave_waiting
  handle_leave_waiting-Good s r w g =
      let leaver = player_id_of w.objects s in
      let n = length (player_ids r) in
      let w1 = broadcast_to ctx r (player_leave_room_notify r.room_id leaver 1) w in
      let w2 = send s (leave_room_resp 0 "left room") w1 in
      let g3 =
        remove_room-Good n r.room_id w2
          (send-Good n s (leave_room_resp 0 "left room") w1 (broadcast_to-Good n r _ w g)) in
      if_intro (λ (u : World F). Good 0 (core u)) (not ctx.has_match)
        (λ h. (g3.0, omega (arith, g3.1)))
        (λ h.
          requeue_all-Good ctx 0 (others leaver (player_ids r)) (remove_room ctx r.room_id w2)
            (g3.0, omega (arith, g3.1, others-length leaver (player_ids r))))

  surrender-Good :
      (o : Option (GameRoom F)) (s : ℕ) (r : Room) (w : World F)
      → Running (core w) o
      → Good 0 (core w)
      → Good 0 (core (surrender ctx o s r w))
  unfolding surrender
  surrender-Good none s r w e g = send-Good 0 s (leave_room_resp 4 "game not running") w g
  surrender-Good (some b) s r w e g =
      let p = player_id_of w.objects s in
      let w1 = add_battle (eliminate_player p b) w in
      send-Good 0 s (leave_room_resp 0 "surrendered") _ (
        broadcast_to-Good 0 r (player_leave_room_notify r.room_id p 2) w1 (
          add_battle-Good 0 (eliminate_player p b) w g
            (subst (λ i. Present i w.rooms) (sym (eliminate_player-room_id p b)) e)))

  handle_leave_playing-Good :
      (s : ℕ) (r : Room) (w : World F)
      → Good 0 (core w)
      → Good 0 (core (handle_leave_playing ctx s r w))
  unfolding handle_leave_playing
  handle_leave_playing-Good s r w g =
      if_intro (λ (u : World F). Good 0 (core u)) (not ctx.has_loop)
        (λ h. send-Good 0 s (leave_room_resp 4 "game not running") w g)
        (λ h.
          surrender-Good (lookup r.room_id w.battles) s r w (lookup-Running (core w) g.0 r.room_id)
            g)

  -- A state with room for requests has room for none.
  abbrev none_left : {c : Core F} (n : ℕ) → Good n c → Good 0 c
  none_left n g = (g.0, omega (arith, g.1))

  leave_in-Good :
      (state : RoomState) (s : ℕ) (r : Room) (w : World F)
      → Good (length (player_ids r)) (core w)
      → Good 0 (core (leave_in ctx state s r w))
  unfolding leave_in
  leave_in-Good waiting s r w g = handle_leave_waiting-Good s r w g
  leave_in-Good playing s r w g =
      handle_leave_playing-Good s r w (none_left (length (player_ids r)) g)
  leave_in-Good settlement s r w g =
      send-Good 0 s (leave_room_resp 3 "room closing") w (none_left (length (player_ids r)) g)
  leave_in-Good closed s r w g =
      send-Good 0 s (leave_room_resp 3 "room closing") w (none_left (length (player_ids r)) g)

  leave_from-Good :
      (o : Option Room) (s id : ℕ) (w : World F)
      → Good (length (ids_of o)) (core w)
      → Good 0 (core (leave_from ctx o s id w))
  unfolding leave_from
  leave_from-Good none s id w g = send-Good 0 s (leave_room_resp 2 "not in room") w (none_left 0 g)
  leave_from-Good (some r) s id w g =
      if_intro (λ (u : World F). Good 0 (core u)) (not (id == 0) && not (id == r.room_id))
        (λ h.
          send-Good 0 s (leave_room_resp 2 "not in room") w (none_left (length (player_ids r)) g))
        (λ h. leave_in-Good r.state s r w g)

  pub handle_leave_room-Good :
      (s request : Option ℕ) (w : World F)
      → Good (left_by s w) (core w)
      → Good 0 (core (handle_leave_room ctx s request w))
  unfolding handle_leave_room
  handle_leave_room-Good none request w g = g
  handle_leave_room-Good (some s) none w g =
      send-Good 0 s (leave_room_resp 1 "bad request") w (none_left (left_by (some s) w) g)
  handle_leave_room-Good (some s) (some id) w g =
      leave_from-Good (get_player_room (player_id_of w.objects s) w) s id w g

module _ (ops : FloatOps) (ctx : Context) where
  open ops use {Float}

  start_game_room-Good :
      (r : Room) (w : World Float)
      → Good 0 (core w)
      → Present r.room_id w.rooms
      → Good 0 (core (start_game_room ops ctx r w))
  unfolding start_game_room
  start_game_room-Good r w g e =
      let ids = player_ids r in
      let b = start ops ids (new_game_room ops r.room_id) in
      let w' = add_battle b w in
      let w'' = players_play ctx r.room_id ids w' in
      if_intro (λ (u : World Float). Good 0 (core u)) (not ctx.has_loop) (λ h. g)
        (λ h.
          same-Good 0
            (core-broadcast_to ctx r (room_state_notify r.room_id (state_value playing) ids) w''
              ∙ core-players_play ctx r.room_id ids w')
            (add_battle-Good 0 b w g (unfold start in e)))

  ready_in-Good :
      (o : Option Room) (p : ℕ) (ready : Bool) (w : World Float)
      → Stored (core w) o
      → Good 0 (core w)
      → Good 0 (core (ready_in ops ctx o p ready w))
  unfolding ready_in
  ready_in-Good none p ready w e g = g
  ready_in-Good (some r) p ready w e g =
      let step = set_ready_and_try_start (manager ctx w) p ready r in
      let key = set_ready_and_try_start-room_id (manager ctx w) p ready r in
      let w1 = put_room step.0 w in
      let messages = ready_messages ops ctx step.1 in
      let w2 = send_all messages w1 in
      let same = core-send_all messages w1 in
      let g2 = same-Good 0 same (
        put_room-Good 0 r step.0 w g e key
          (set_ready_and_try_start-has (manager ctx w) p ready r)) in
      if_intro (λ (u : World Float). Good 0 (core u)) step.2
        (λ h. start_game_room-Good step.0 w2 g2 (
          subst (λ (c : Core Float). Present step.0.room_id c.rooms) (sym same)
            (step.0, insert-new step.0.room_id step.0 w.rooms)))
        (λ h. g2)

  pub handle_ready-Good :
      (s : Option ℕ) (request : Option Bool) (w : World Float)
      → Good 0 (core w)
      → Good 0 (core (handle_ready ops ctx s request w))
  unfolding handle_ready
  handle_ready-Good none request w g = g
  handle_ready-Good (some s) none w g = g
  handle_ready-Good (some s) (some ready) w g =
      let p = player_id_of w.objects s in
      ready_in-Good (get_player_room p w) p ready w (get_player_room-Stored p w g.0) g

  input_to-Good :
      (o : Option (GameRoom Float)) (p : ℕ) (input : PlayerInput Float) (now : ℕ) (w : World Float)
      → Running (core w) o
      → Good 0 (core w)
      → Good 0 (core (input_to ops ctx o p input now w))
  unfolding input_to
  input_to-Good none p input now w e g = g
  input_to-Good (some b) p input now w e g =
      add_battle-Good 0 _ w g (unfold Battle.handle_input in e)

  pub handle_input-Good :
      (s : Option ℕ) (input : Option (PlayerInput Float)) (now : ℕ) (w : World Float)
      → Good 0 (core w)
      → Good 0 (core (handle_input ops ctx s input now w))
  unfolding handle_input
  handle_input-Good none input now w g = g
  handle_input-Good (some s) none now w g = g
  handle_input-Good (some s) (some input) now w g =
      if_intro (λ (u : World Float). Good 0 (core u)) ctx.has_loop
        (λ h.
          input_to-Good (lookup (room_id_of w.objects s) w.battles) (player_id_of w.objects s) input
            now w (lookup-Running (core w) g.0 (room_id_of w.objects s)) g)
        (λ h. g)
