-- ===== src/Service/Matching.antt =====
-- src/match/match_service.cpp: requests to match, and rooms made of waiting players.
use cpp_game_room.Base.{
  ℕ, zero, suc, Bool, true, false, not, ◌&&◌, ◌||◌, Option, none, some, List, [], ◌∷◌, ◌==◌,
  if◌then◌else◌, length, String,
}
use cpp_game_room.Net.Session.{player_id_of}
use cpp_game_room.Player.{online, matching, in_room, set_status, set_room}
use cpp_game_room.Match.Queue.{push, remove, is_matching, try_pop_n, size}
use cpp_game_room.Service.World.{
  World, Context, Message, match_resp, match_cancel_resp, match_success_notify, send,
  session_of_player, set_session_room, update_player,
}
use cpp_game_room.Service.Rooms.{create_room}

-- `session->Send(…)` under `if (auto session = …)`.
abbrev pub send_to : {F : Type 0} → Option ℕ → Message F → World F → World F
send_to none message w = w
send_to (some s) message w = send s message w

abbrev pub is_nil : List ℕ → Bool
is_nil [] = true
is_nil (x ∷ xs) = false

module _ {F : Type 0} (ctx : Context) where
  -- The second loop over the players of a new room.
  unfoldable pub notify_players : ℕ → List ℕ → List ℕ → World F → World F
  unfolding update_player send
  notify_players room_id all [] w = w
  notify_players room_id all (p ∷ ps) w =
      let w' = update_player ctx p (λ q. set_room room_id (set_status in_room q)) w in
      notify_players room_id all ps
        (send_to (session_of_player ctx p w') (match_success_notify room_id all) w')

  -- The body of TryCreateRoom's loop for players that it took off the queue.
  unfoldable pub make_room : List ℕ → World F → World F
  unfolding create_room notify_players
  make_room ids w = let (w', room_id) = create_room ctx ids w in notify_players room_id ids ids w'

  -- TryCreateRoom: whether it returned, and the state. Each round that goes on takes players off
  -- the queue.
  unfoldable pub create_rooms : ℕ → World F → World F × Bool
  create_rooms zero w = (w, false)
  create_rooms (suc fuel) w =
      let (queue', ids) = try_pop_n ctx.room_player_count w.queue in
      let w' = record w { queue = queue' } in
      let rest = create_rooms fuel (make_room ids w') in
      if is_nil ids || not (length ids == ctx.room_player_count) || not ctx.has_rooms
      then (w', true)
      else rest

  -- One round more than there are waiting players is enough.
  unfoldable pub try_create_room : World F → World F
  unfolding create_rooms
  try_create_room w = (create_rooms (suc (size w.queue)) w).0

  -- StartMatching after a push that the queue refused.
  unfoldable pub already_matching : ℕ → ℕ → World F → World F × Bool
  unfolding update_player set_session_room send
  already_matching player_id s w =
      let w' =
        if is_matching player_id w.queue && ctx.has_players
        then set_session_room (some s) 0
            (update_player ctx player_id (λ q. set_room 0 (set_status matching q)) w)
        else w in
      (send s (match_resp 2 "already matching") w', false)

  -- StartMatching.
  unfoldable pub start_matching : ℕ → Option ℕ → String → World F → World F × Bool
  unfolding update_player set_session_room send already_matching try_create_room
  start_matching player_id none message w = (w, false)
  start_matching player_id (some s) message w =
      let (queue', pushed) = push player_id w.queue in
      let w1 = record w { queue = queue' } in
      let w2 = update_player ctx player_id (λ q. set_room 0 (set_status matching q)) w1 in
      let w3 = set_session_room (some s) 0 w2 in
      if player_id == 0
      then (send s (match_resp 1 "not login") w, false)
      else if not pushed
      then already_matching player_id s w1
      else (try_create_room (send s (match_resp 0 message) w3), true)

  -- The player that a request names, or else the session's.
  abbrev pub named : ℕ → ℕ → World F → ℕ
  named player_id s w = if player_id == 0 then player_id_of w.objects s else player_id

  -- HandleMatch, of the player id of a request.
  unfoldable pub handle_match : Option ℕ → Option ℕ → World F → World F
  unfolding start_matching send
  handle_match (some s) (some player_id) w =
      let player = named player_id s w in
      if player == 0
      then send s (match_resp 1 "not login") w
      else (start_matching player (some s) "matching" w).0
  handle_match session request w = w

  -- HandleCancelMatch.
  unfoldable pub handle_cancel_match : Option ℕ → Option ℕ → World F → World F
  unfolding update_player set_session_room send
  handle_cancel_match (some s) (some player_id) w =
      let player = named player_id s w in
      let (queue', removed) = remove player w.queue in
      let w' = record w { queue = queue' } in
      let w'' =
        if removed && ctx.has_players
        then set_session_room (some s) 0
            (update_player ctx player (λ q. set_room 0 (set_status online q)) w')
        else w' in
      send s
        (if removed then match_cancel_resp 0 "cancelled" else match_cancel_resp 2 "not matching")
        w''
  handle_cancel_match session request w = w

  -- RequeuePlayer.
  unfoldable pub requeue_player : ℕ → World F → World F × Bool
  unfolding start_matching
  requeue_player player_id w =
      start_matching player_id (session_of_player ctx player_id w) "matching" w
