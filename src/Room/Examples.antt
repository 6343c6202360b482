-- ===== src/Room/Examples.antt =====
-- A room of two players, each with a session.
use cpp_game_room.Base.{
  ℕ, ◌≤◌, ◌≡◌, refl, true, false, Option, none, some, List, [], ◌∷◌, ◌==◌, if◌then◌else◌, arith,
}
use cpp_game_room.Base.Map.{lookup, adjust, has}
use cpp_game_room.Room.{
  waiting, RoomPlayer, Room, new_room, mark_ready, set_ready, set_ready_and_try_start, can_start,
  start_game, broadcast, on_player_disconnect, on_player_reconnect,
}
use cpp_game_room.Room.Ready.{set_ready_and_try_start_split}
use cpp_game_room.Room.Lifecycle.{
  Call, adds, tries, settles, closes, step, Forward, step-Forward, start_count,
  start_count-new_room,
}
use cpp_game_room.Room.Presence.{copies, Injective, copies-broadcast, reconnect-disconnect}

abbrev sessions : ℕ → Option ℕ
sessions p = if p == 7 then some 70 else if p == 8 then some 80 else none

abbrev seated : RoomPlayer
seated = record { player_id = 7; ready = false; connected = true; hp = 100 }

abbrev pair : Room
pair = record {
  room_id = 1000;
  state = waiting;
  players =
      (7, seated) ∷ (8, record { player_id = 8; ready = true; connected = true; hp = 100 }) ∷ [];
}

abbrev calls : List Call
calls = adds 7 ∷ adds 8 ∷ tries 8 true ∷ tries 7 true ∷ tries 7 true ∷ settles ∷ closes ∷ []

last_ready_starts : (set_ready_and_try_start (some sessions) 7 true pair).2 ≡ true
unfolding set_ready_and_try_start lookup adjust mark_ready
last_ready_starts = refl

ready_messages :
    (set_ready (some sessions) 7 true pair).1
    ≡ (70, record { player_id = 7; ready = true })
      ∷ (80, record { player_id = 7; ready = true })
      ∷ []
unfolding set_ready lookup adjust mark_ready broadcast
ready_messages = refl

set_ready_and_try_start_split_example :
    let r' = (set_ready (some sessions) 7 true pair).0 in
    let t = set_ready_and_try_start (some sessions) 7 true pair in
    (t.0 ≡ start_game r') × (t.1 ≡ (set_ready (some sessions) 7 true pair).1) × (t.2 ≡ can_start r')
unfolding lookup
set_ready_and_try_start_split_example =
    set_ready_and_try_start_split (some sessions) 7 true pair refl refl

step-Forward_example : Forward pair (step (some sessions) (tries 7 true) pair)
step-Forward_example = step-Forward (some sessions) (tries 7 true) pair

start_count-new_room_example : start_count (some sessions) calls (new_room 1000) ≤ 1
start_count-new_room_example = start_count-new_room (some sessions) 1000 calls

sessions-Injective : Injective sessions
sessions-Injective p q s h k = ground arith

copies-broadcast_example :
    copies {M = ℕ} 70 (broadcast (some sessions) 5 pair) ≡ (if has 7 pair.players then 1 else 0)
unfolding lookup
copies-broadcast_example =
    copies-broadcast sessions 5 sessions-Injective pair 7 70 (refl, (refl, tt)) refl

reconnect-disconnect_example :
    on_player_reconnect 7 (some 71) (on_player_disconnect 7 pair) ≡ (pair, some (71, 1000))
unfolding lookup
reconnect-disconnect_example = reconnect-disconnect 7 71 seated pair refl refl
