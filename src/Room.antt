-- ===== src/Room.antt =====
-- src/room: a matched room. This file is room.h, room.cpp, room_player.h and room_state.h. The
-- mutex makes each method one step; `players` stands in the hash map's iteration order.
pub mod Ready
pub mod Lifecycle
pub mod Presence
pub mod Examples
use cpp_game_room.Base.{
  ℕ, Bool, true, false, not, ◌&&◌, ◌||◌, Option, none, some, List, [], ◌∷◌, ◌++◌, ◌==◌,
  if◌then◌else◌,
}
use cpp_game_room.Base.Map.{Map, lookup, insert, remove, keys, has, adjust}

-- enum class RoomState, with the values 0, 2, 3 and 4.
pub data RoomState : Type 0 where
  waiting playing settlement closed : RoomState

-- static_cast<int32_t>(state)
abbrev pub state_value : RoomState → ℕ
state_value waiting = 0
state_value playing = 2
state_value settlement = 3
state_value closed = 4

abbrev pub is_waiting : RoomState → Bool
is_waiting waiting = true
is_waiting _ = false

abbrev pub is_playing : RoomState → Bool
is_playing playing = true
is_playing _ = false

-- struct RoomPlayer; its coordinates are reserved fields that nothing reads or writes.
pub record RoomPlayer : Type 0 where
  pub player_id : ℕ
  pub ready : Bool
  pub connected : Bool
  pub hp : ℕ

pub record Room : Type 0 where
  pub room_id : ℕ
  pub state : RoomState
  pub players : Map RoomPlayer

-- proto::ReadyNotify
pub record ReadyNotify : Type 0 where
  pub player_id : ℕ
  pub ready : Bool

-- ConnectionManager::GetByPlayerId, which gives the id of the player's session; `none` in place
-- of the function is a null manager.
abbrev pub Lookup : Type 0
Lookup = Option (ℕ → Option ℕ)

abbrev pub new_room : ℕ → Room
new_room room_id = record { room_id = room_id; state = waiting; players = [] }

unfoldable pub add_player : ℕ → Room → Room × Bool
add_player player_id r =
    if is_waiting r.state
    then (
      record r {
        players =
            insert player_id
              (record { player_id = player_id; ready = false; connected = true; hp = 100 })
              r.players;
      },
      true,
    )
    else (r, false)

unfoldable pub remove_player : ℕ → Room → Room × Bool
remove_player player_id r =
    (record r { players = remove player_id r.players }, has player_id r.players)

-- The rest of Broadcast, over the ids read before: a send to each session that is found.
unfoldable pub send_each {ℓ} : {M : Type ℓ} → (ℕ → Option ℕ) → M → List ℕ → List (ℕ × M)
send_each find msg [] = []
send_each find msg (p ∷ ps) =
    let sent = send_each find msg ps in
    elim (find p) [ none ↦ sent | some session ↦ (session, msg) ∷ sent ]

-- Room::Broadcast: the messages in the order of sending, each with its session.
unfoldable pub broadcast {ℓ} : {M : Type ℓ} → Lookup → M → Room → List (ℕ × M)
unfolding send_each keys
broadcast none msg r = []
broadcast (some find) msg r = send_each find msg (keys r.players)

unfoldable pub mark_ready : Bool → RoomPlayer → RoomPlayer
mark_ready b p = record p { ready = b }

abbrev notify : ℕ → Bool → ReadyNotify
notify player_id b = record { player_id = player_id; ready = b }

unfoldable pub set_ready : Lookup → ℕ → Bool → Room → Room × List (ℕ × ReadyNotify)
set_ready find player_id b r =
    if not (has player_id r.players) || not (is_waiting r.state)
    then (r, [])
    else let r' = record r {
      players = adjust player_id (mark_ready b) r.players;
      state = waiting;
    } in
      (r', broadcast find (notify player_id b) r')

-- all_ready = all_ready && player.ready, over the players.
unfoldable pub ready_loop : Bool → Map RoomPlayer → Bool
ready_loop acc [] = acc
ready_loop acc ((k, p) ∷ m) = ready_loop (acc && p.ready) m

abbrev pub is_empty : Map RoomPlayer → Bool
is_empty [] = true
is_empty (e ∷ m) = false

-- The room, the messages, and whether this call started the game.
unfoldable pub set_ready_and_try_start :
    Lookup → ℕ → Bool → Room → Room × List (ℕ × ReadyNotify) × Bool
unfolding ready_loop
set_ready_and_try_start find player_id b r =
    if not (has player_id r.players) || not (is_waiting r.state)
    then (r, [], false)
    else let players' = adjust player_id (mark_ready b) r.players in
      let all_ready = ready_loop (not (is_empty players')) players' in
      let r' = record r { players = players'; state = if all_ready then playing else waiting } in
      (r', broadcast find (notify player_id b) r', all_ready)

-- The loop of CanStart, which returns at the first player that is not ready.
unfoldable pub every_ready : Map RoomPlayer → Bool
every_ready [] = true
every_ready ((k, p) ∷ m) = let rest = every_ready m in if not p.ready then false else rest

unfoldable pub can_start : Room → Bool
unfolding every_ready
can_start r =
    if is_empty r.players || not (is_waiting r.state) then false else every_ready r.players

unfoldable pub start_game : Room → Room
unfolding ready_loop
start_game r =
    if ready_loop (not (is_empty r.players)) r.players && is_waiting r.state
    then record r { state = playing }
    else r

unfoldable pub set_settlement : Room → Room
set_settlement r = if is_playing r.state then record r { state = settlement } else r

unfoldable pub close : Room → Room
close r = record r { state = closed }

unfoldable pub mark_connected : Bool → RoomPlayer → RoomPlayer
mark_connected b p = record p { connected = b }

unfoldable pub on_player_disconnect : ℕ → Room → Room
unfolding mark_connected
on_player_disconnect player_id r = record r {
  players = adjust player_id (mark_connected false) r.players;
}

-- The room, and the room id that the new session gets, if there is a session.
unfoldable pub on_player_reconnect : ℕ → Option ℕ → Room → Room × Option (ℕ × ℕ)
unfolding mark_connected
on_player_reconnect player_id session r = (
  record r { players = adjust player_id (mark_connected true) r.players },
  elim session [ none ↦ none | some s ↦ some (s, r.room_id) ],
)

-- Room::PlayerIds
unfoldable pub player_ids : Room → List ℕ
unfolding keys
player_ids r = keys r.players
