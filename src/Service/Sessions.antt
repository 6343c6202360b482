-- ===== src/Service/Sessions.antt =====
-- Logins, heartbeats and connections that come and go: the maps still agree.
use cpp_game_room.Base.{
  if_intro, ◌+◌, ℕ, ◌≡◌, refl, ◌∙◌, true, false, ◌||◌, Option, none, some, List, [], ◌∷◌, ◌==◌, ltb,
  arith, String,
}
use cpp_game_room.Base.Map.{lookup}
use cpp_game_room.Net.Session.{player_id_of, room_id_of, read}
use cpp_game_room.Net.Connections.{ConnectionManager, get_by_player_id, all_sessions}
use cpp_game_room.Player.{Player, set_room, set_offline}
use cpp_game_room.Room.{Room, mark_connected, on_player_reconnect, on_player_disconnect}
use cpp_game_room.Storage.Statement.{PlayerData}
use cpp_game_room.Service.World.{
  World, Context, session_of_player, heartbeat_resp, reconnect_resp, login_resp,
}
use cpp_game_room.Service.Rooms.{get_room, get_player_room, put_room}
use cpp_game_room.Service.Login.{
  LoginService, is_token, touch_player, rejoin, return_to_room, close_old, bind, beat,
  handle_heartbeat, enter_player, enter_again, finish_login, begin_login, finish_reconnect,
  handle_reconnect,
}
use cpp_game_room.Service.Server.{
  check_each, check_heartbeats, accept, disconnect_from, session_closed, connection_closed,
  is_other,
}
use cpp_game_room.Service.Core.{Core, core, core-close_session, core-set_session_room}
use cpp_game_room.Service.Requests.{Good, same-Good, send-Good}
use cpp_game_room.Service.Stored.{
  Stored, get_room-Stored, get_player_room-Stored, put_room-Good, has-adjust,
}

-- The agreement does not concern the connections.
connections-Good :
    {F : Type 0} (c : Core F) (connections : ConnectionManager)
    → Good 0 c
    → Good 0 (record c { connections = connections })
connections-Good c connections g = (
  record { keyed = g.0.keyed; mapped = g.0.mapped; battling = g.0.battling; agree = g.0.agree },
  g.1,
)

module _ {F : Type 0} (ctx : Context) where
  core-touch_player :
      (p : ℕ) (f : Player → Player) (w : World F) → core (touch_player ctx p f w) ≡ core w
  unfolding touch_player
  core-touch_player p f w = ground arith

  rejoin-Good :
      (o : Option Room) (s p : ℕ) (w : World F)
      → Stored (core w) o
      → Good 0 (core w)
      → Good 0 (core (rejoin ctx o s p w).0)
  unfolding rejoin
  rejoin-Good none s p w e g = same-Good 0 (core-touch_player p (set_room 0) w) g
  rejoin-Good (some r) s p w e g =
      let r' = (on_player_reconnect p (some s) r).0 in
      let w1 = put_room r' w in
      same-Good 0 (core-touch_player p _ _ ∙ core-set_session_room (some s) r.room_id w1) (
        put_room-Good 0 r r' w g e (unfold on_player_reconnect in refl)
          (λ q. unfold on_player_reconnect in has-adjust q p (mark_connected true) r.players))

  return_to_room-Good :
      (s p : ℕ) (w : World F) → Good 0 (core w) → Good 0 (core (return_to_room ctx s p w).0)
  unfolding return_to_room
  return_to_room-Good s p w g =
      if_intro (λ (r : World F × ℕ). Good 0 (core r.0)) ctx.has_rooms
        (λ h. rejoin-Good (get_player_room p w) s p w (get_player_room-Stored p w g.0) g) (λ h. g)

  bind-Good : (s p : ℕ) (w : World F) → Good 0 (core w) → Good 0 (core (bind ctx s p w))
  unfolding bind
  bind-Good s p w g =
      if_intro (λ (u : World F). Good 0 (core u)) ctx.has_connections
        (λ h. connections-Good (core w) _ g) (λ h. g)

  core-close_old : (old : Option ℕ) (s : ℕ) (w : World F) → core (close_old ctx old s w) ≡ core w
  unfolding close_old
  core-close_old none s w = refl
  core-close_old (some old) s w =
      if_intro (λ (u : World F). core u ≡ core w) (old == s) (λ h. refl)
        (λ h. core-close_session old w)

  core-enter_player :
      (d : PlayerData) (s p : ℕ) (w : World F) → core (enter_player ctx d s p w) ≡ core w
  unfolding enter_player
  core-enter_player d s p w = ground arith

  core-enter_again : (s p : ℕ) (w : World F) → core (enter_again ctx s p w) ≡ core w
  unfolding enter_again
  core-enter_again s p w = ground arith

  pub begin_login-Good :
      (s p now : ℕ) (w : World F) → Good 0 (core w) → Good 0 (core (begin_login ctx s p now w))
  unfolding begin_login beat
  begin_login-Good s p now w g =
      let old = session_of_player ctx p w in
      bind-Good s p (close_old ctx old s w) (same-Good 0 (core-close_old old s w) g)

  pub finish_login-Good :
      (d : PlayerData) (token : String) (s p : ℕ) (w : World F)
      → Good 0 (core w)
      → Good 0 (core (finish_login ctx d token s p w))
  unfolding finish_login
  finish_login-Good d token s p w g = send-Good 0 s (login_resp 0 p d.name token) _ (
      return_to_room-Good s p (enter_player ctx d s p w)
        (same-Good 0 (core-enter_player d s p w) g))

  pub handle_reconnect-Good :
      (s : Option ℕ) (request : Option (ℕ × String)) (l : LoginService) (w : World F)
      → Good 0 (core w)
      → Good 0 (core (handle_reconnect ctx s request l w))
  unfolding handle_reconnect finish_reconnect
  handle_reconnect-Good none request l w g = g
  handle_reconnect-Good (some s) none l w g = send-Good 0 s (reconnect_resp 1 0) w g
  handle_reconnect-Good (some s) (some (p, token)) l w g =
      if_intro (λ (u : World F). Good 0 (core u)) (is_token token (lookup p l.session_tokens))
        (λ h. send-Good 0 s (reconnect_resp 0 _) _ (
          return_to_room-Good s p (enter_again ctx s p (bind ctx s p w))
            (same-Good 0 (core-enter_again s p (bind ctx s p w)) (bind-Good s p w g))))
        (λ h. send-Good 0 s (reconnect_resp 2 0) w g)

  pub handle_heartbeat-Good :
      (s : Option ℕ) (now later : ℕ) (w : World F)
      → Good 0 (core w)
      → Good 0 (core (handle_heartbeat ctx s now later w))
  unfolding handle_heartbeat beat
  handle_heartbeat-Good none now later w g = g
  handle_heartbeat-Good (some s) now later w g = send-Good 0 s (heartbeat_resp later) _ g

module _ {F : Type 0} where
  pub core-check_each : (now : ℕ) (ss : List ℕ) (w : World F) → core (check_each now ss w) ≡ core w
  unfolding check_each
  core-check_each now [] w = refl
  core-check_each now (s ∷ ss) w =
      core-check_each now ss _
      ∙ if_intro (λ (u : World F). core u ≡ core w)
          (ltb (read (λ o. o.last_heartbeat_ms) 0 (lookup s w.objects) + 30000) now)
          (λ h. core-close_session s w) (λ h. refl)

  pub check_heartbeats-Good :
      (now : ℕ) (w : World F) → Good 0 (core w) → Good 0 (core (check_heartbeats now w))
  unfolding check_heartbeats
  check_heartbeats-Good now w g = same-Good 0 (core-check_each now (all_sessions w.connections) w) g

  pub accept-Good : (s now : ℕ) (w : World F) → Good 0 (core w) → Good 0 (core (accept s now w))
  unfolding accept
  accept-Good s now w g = connections-Good (core w) _ g

  disconnect_from-Good :
      (o : Option Room) (p : ℕ) (w : World F)
      → Stored (core w) o
      → Good 0 (core w)
      → Good 0 (core (disconnect_from o p w))
  unfolding disconnect_from
  disconnect_from-Good none p w e g = g
  disconnect_from-Good (some r) p w e g =
      put_room-Good 0 r (on_player_disconnect p r) w g e (unfold on_player_disconnect in refl)
        (λ q. unfold on_player_disconnect in has-adjust q p (mark_connected false) r.players)

  session_closed-Good : (s : ℕ) (w : World F) → Good 0 (core w) → Good 0 (core (session_closed s w))
  unfolding session_closed
  session_closed-Good s w g =
      let p = player_id_of w.objects s in
      let room_id = room_id_of w.objects s in
      let w' = record w { players = set_offline p w.players } in
      if_intro (λ (u : World F). Good 0 (core u))
        (p == 0 || is_other s (get_by_player_id p w.connections)) (λ h. g)
        (λ h.
          if_intro (λ (u : World F). Good 0 (core u)) (room_id == 0) (λ k. g)
            (λ k.
              disconnect_from-Good (get_room room_id w') p w' (get_room-Stored room_id w' g.0) g))

  pub connection_closed-Good :
      (s : ℕ) (w : World F) → Good 0 (core w) → Good 0 (core (connection_closed s w))
  unfolding connection_closed
  connection_closed-Good s w g = session_closed-Good s _ (connections-Good (core w) _ g)
