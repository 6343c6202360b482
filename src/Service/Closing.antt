-- ===== src/Service/Closing.antt =====
-- GameServer's callback for connections that closed, when the player may have come back already.
use cpp_game_room.Base.{
  if_intro, ℕ, ◌≡◌, ◌≢◌, refl, ap, ◌∙◌, Bool, true, false, Option, none, some, ◌==◌, arith, ne_test,
  ==_refl,
}
use cpp_game_room.Base.Map.{Map, lookup, remove, has, lookup-remove}
use cpp_game_room.Net.Session.{Session, player_id_of, room_id_of}
use cpp_game_room.Net.Connections.{ConnectionManager, get_by_player_id, remove_session, unbind}
use cpp_game_room.Player.{set_offline, is_online}
use cpp_game_room.Room.{Room}
use cpp_game_room.Service.World.{World}
use cpp_game_room.Service.Rooms.{get_room}
use cpp_game_room.Service.Consistent.{remove-same}
use cpp_game_room.Service.Server.{connection_closed, session_closed, disconnect_from}

abbrev is_there : Option ℕ → Bool
is_there none = false
is_there (some s) = true

module _ (objects : Map Session) (s p : ℕ) (of_player : player_id_of objects s ≡ p)
    (cm : ConnectionManager) (here : lookup s cm.sessions ≡ some s) where
  remove_session-other :
      (t : ℕ)
      → lookup p cm.player_sessions ≡ some t
      → t ≢ s
      → remove_session objects s cm ≡ record cm { sessions = remove s cm.sessions }
  unfolding remove_session unbind
  remove_session-other t bound other =
      ap (λ (m : Map ℕ). record cm { sessions = remove s cm.sessions; player_sessions = m })
        (ap (λ o. unbind objects o cm.player_sessions) here
          ∙ rw (of_player, bound, ne_test t s other) refl)

  remove_session-own :
      lookup p cm.player_sessions ≡ some s
      → lookup p (remove_session objects s cm).player_sessions ≡ none
  unfolding remove_session unbind
  remove_session-own bound =
      ap (λ o. lookup p (unbind objects o cm.player_sessions)) here
      ∙ rw (of_player, bound, ==_refl s)
          (lookup-remove p p cm.player_sessions ∙ rw (==_refl p) refl)

module _ {F : Type 0} (s p : ℕ) (w : World F) (of_player : player_id_of w.objects s ≡ p)
    (here : lookup s w.connections.sessions ≡ some s) where
  -- A session whose player is bound to another session by now leaves the table of sessions when
  -- it closes, and nothing else happens: the binding, the player and the room stay as they are.
  pub connection_closed-other :
      (t : ℕ)
      → get_by_player_id p w.connections ≡ some t
      → t ≢ s
      → connection_closed s w ≡ record w {
        connections = record w.connections { sessions = remove s w.connections.sessions };
      }
  unfolding connection_closed session_closed get_by_player_id
  connection_closed-other t bound other =
      ap (λ (cm : ConnectionManager). session_closed s (record w { connections = cm }))
        (remove_session-other w.objects s p of_player w.connections here t bound other)
      ∙ rw (of_player, bound, ne_test t s other) (ground arith)

  abbrev ClosedPlayer : World F → Type 0
  ClosedPlayer u =
      (lookup p u.connections.player_sessions ≡ none) × (has p u.players.online_sessions ≡ false)

  disconnect_from-ClosedPlayer :
      (o : Option Room) (u : World F) → ClosedPlayer u → ClosedPlayer (disconnect_from o p u)
  unfolding disconnect_from
  disconnect_from-ClosedPlayer none u h = h
  disconnect_from-ClosedPlayer (some r) u h = h

  -- When a session closes that is in the table and whose own player id is that of a player with
  -- an id, and this player is bound to it, the player has no session any more and is not online.
  pub connection_closed-own :
      get_by_player_id p w.connections ≡ some s
      → p ≢ 0
      → (get_by_player_id p (connection_closed s w).connections ≡ none)
        × (is_online p (connection_closed s w).players ≡ false)
  unfolding connection_closed session_closed get_by_player_id is_online set_offline get_room
  connection_closed-own bound player =
      let cm = remove_session w.objects s w.connections in
      let gone : lookup p cm.player_sessions ≡ none =
        remove_session-own w.objects s p of_player w.connections here bound in
      let players' = set_offline p w.players in
      let u : World F = record w { connections = cm; players = players' } in
      let off : has p players'.online_sessions ≡ false =
        ap is_there (remove-same p p w.players.online_sessions (==_refl p)) in
      rw (of_player, gone, ne_test p 0 player)
        (if_intro ClosedPlayer (room_id_of w.objects s == 0) (λ h. (gone, off))
          (λ h. disconnect_from-ClosedPlayer (get_room (room_id_of w.objects s) u) u (gone, off)))
