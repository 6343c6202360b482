-- ===== src/Room/Presence.antt =====
-- Who gets a broadcast, and what a lost connection changes.
use cpp_game_room.Base.{
  ℕ, ◌+◌, ◌≡◌, refl, ap, true, false, Option, some, List, [], ◌∷◌, if◌then◌else◌, inl, inr, arith,
  ◌==◌, Bool-cases,
}
use cpp_game_room.Base.Map.{Map, has, adjust, keys, lookup, DistinctKeys}
use cpp_game_room.Room.{
  RoomPlayer, Room, send_each, broadcast, mark_connected, on_player_disconnect, on_player_reconnect,
}

-- How many of the messages go to a session.
abbrev pub copies {ℓ} : {M : Type ℓ} → ℕ → List (ℕ × M) → ℕ
copies s [] = 0
copies s ((t, m) ∷ l) = (if t == s then 1 else 0) + copies s l

-- Two players never share a session.
abbrev pub Injective : (ℕ → Option ℕ) → Type 0
Injective find = (p q s : ℕ) → find p ≡ some s → find q ≡ some s → p ≡ q

module _ {ℓ} {M : Type ℓ} (find : ℕ → Option ℕ) (msg : M) (inj : Injective find) where
  -- Nobody in the room has the session: it gets nothing.
  send_each-absent :
      (s p : ℕ) (m : Map RoomPlayer)
      → find p ≡ some s
      → has p m ≡ false
      → copies s (send_each find msg (keys m)) ≡ 0
  unfolding send_each keys lookup
  send_each-absent s p [] e h = refl
  send_each-absent s p ((k, v) ∷ m) e h = ground (arith, send_each-absent s p m e, inj k p s)

  send_each-present :
      (s p : ℕ) (m : Map RoomPlayer)
      → find p ≡ some s
      → DistinctKeys m
      → has p m ≡ true
      → copies s (send_each find msg (keys m)) ≡ 1
  unfolding send_each keys lookup
  send_each-present s p [] e d h = cc
  send_each-present s p ((k, v) ∷ m) e d h =
      ground (arith, send_each-present s p m e d.1, send_each-absent s p m e, inj k p s)

  -- If players do not share sessions, a broadcast reaches the session of each player of the room
  -- exactly once and the session of any other player never.
  pub copies-broadcast :
      (r : Room) (p s : ℕ)
      → DistinctKeys r.players
      → find p ≡ some s
      → copies s (broadcast (some find) msg r) ≡ (if has p r.players then 1 else 0)
  unfolding broadcast
  copies-broadcast r p s d e = elim (Bool-cases (has p r.players)) [
    | inl h ↦ rw h (send_each-present s p r.players e d h)
    | inr h ↦ rw h (send_each-absent s p r.players e h)
  ]

adjust_restore :
    (p : ℕ) (v : RoomPlayer) (m : Map RoomPlayer)
    → lookup p m ≡ some v
    → v.connected ≡ true
    → adjust p (mark_connected true) (adjust p (mark_connected false) m) ≡ m
unfolding adjust lookup mark_connected
adjust_restore p v [] h e = refl
adjust_restore p v ((k, w) ∷ m) h e = ground (arith, adjust_restore p v m)

-- A connected player who disconnects and reconnects with a session finds the room exactly as it
-- was, and the session gets the id of the room.
pub reconnect-disconnect :
    (p session : ℕ) (v : RoomPlayer) (r : Room)
    → lookup p r.players ≡ some v
    → v.connected ≡ true
    → on_player_reconnect p (some session) (on_player_disconnect p r)
      ≡ (r, some (session, r.room_id))
unfolding on_player_reconnect on_player_disconnect
reconnect-disconnect p session v r h e =
    ap (λ (m : Map RoomPlayer). (record r { players = m }, some (session, r.room_id)))
      (adjust_restore p v r.players h e)
