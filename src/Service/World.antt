-- ===== src/Service/World.antt =====
-- The state that the services share: all that ServiceContext points to, the store of sessions, and
-- what was sent. Each handler is one step.
use cpp_game_room.Base.{
  ℕ, Bool, true, Option, none, some, List, [], ◌∷◌, ◌++◌, if◌then◌else◌, String,
}
use cpp_game_room.Base.Int.{ℤ}
use cpp_game_room.Base.Map.{Map, adjust}
use cpp_game_room.Net.Session.{Session, set_room_id, is_linked}
use cpp_game_room.Net.Connections.{ConnectionManager, get_by_player_id}
use cpp_game_room.Player.{Player, PlayerManager, change_player}
use cpp_game_room.Match.Queue.{MatchQueue}
use cpp_game_room.Room.{Room, Lookup, ReadyNotify, broadcast}
use cpp_game_room.Game.Battle.{GameRoom}
use cpp_game_room.Rank.{RankEntry}

-- A player in a GameStateNotify.
pub record PlayerState (F : Type 0) : Type 0 where
  pub player_id : ℕ
  pub x : F
  pub y : F
  pub hp : ℤ

-- The messages of src/proto that the services send, with their fields.
pub data Message (F : Type 0) : Type 0 where
  login_resp : ℕ → ℕ → String → String → Message F
  heartbeat_resp : ℕ → Message F
  reconnect_resp : ℕ → ℕ → Message F
  match_resp : ℕ → String → Message F
  match_success_notify : ℕ → List ℕ → Message F
  match_cancel_resp : ℕ → String → Message F
  ready_notify : ReadyNotify → Message F
  room_state_notify : ℕ → ℕ → List ℕ → Message F
  leave_room_resp : ℕ → String → Message F
  player_leave_room_notify : ℕ → ℕ → ℕ → Message F
  game_state_notify : ℕ → ℕ → List (PlayerState F) → Message F
  game_over_notify : ℕ → ℕ → List ℕ → Message F
  rank_resp : List RankEntry → Message F

-- Which pointers of the ServiceContext are set; the settings; and the texts that std::to_string
-- and `+` give: `"player_" + player_id`, `"guest_" + id` and `player_id + "_" + now`.
pub record Context : Type 0 where
  pub has_connections : Bool
  pub has_players : Bool
  pub has_rooms : Bool
  pub has_match : Bool
  pub has_loop : Bool
  pub room_player_count : ℕ
  pub default_name : ℕ → String
  pub guest_name : ℕ → String
  pub token_of : ℕ → ℕ → String

-- The context as GameServer::Init fills it.
abbrev pub full_context : ℕ → (ℕ → String) → (ℕ → String) → (ℕ → ℕ → String) → Context
full_context count name guest token = record {
  has_connections = true;
  has_players = true;
  has_rooms = true;
  has_match = true;
  has_loop = true;
  room_player_count = count;
  default_name = name;
  guest_name = guest;
  token_of = token;
}

pub record World (F : Type 0) : Type 0 where
  pub objects : Map Session
  pub connections : ConnectionManager
  pub players : PlayerManager
  -- RoomManager's maps; a pointer to a room is its id.
  pub rooms : Map Room
  pub player_room_map : Map ℕ
  -- IdGenerator::NextRoomId, as an int64_t.
  pub next_room_id : ℕ
  pub queue : MatchQueue
  -- GameLoop's rooms_.
  pub battles : Map (GameRoom F)
  -- What was sent, each message with its session, and the sessions that were asked to close.
  pub sent : List (ℕ × Message F)
  pub closing : List ℕ

module _ {F : Type 0} where
  -- Session::Send
  unfoldable pub send : ℕ → Message F → World F → World F
  send s message w =
      if is_linked w.objects s then record w { sent = w.sent ++ (s, message) ∷ [] } else w

  unfoldable pub send_all : List (ℕ × Message F) → World F → World F
  unfolding send
  send_all [] w = w
  send_all ((s, message) ∷ rest) w = send_all rest (send s message w)

  -- Session::Close
  unfoldable pub close_session : ℕ → World F → World F
  close_session s w =
      if is_linked w.objects s then record w { closing = w.closing ++ s ∷ [] } else w

  -- context->connection_manager, for a lookup by player.
  abbrev pub manager : Context → World F → Lookup
  manager ctx w = if ctx.has_connections then some (λ p. get_by_player_id p w.connections) else none

  abbrev pub session_of_player : Context → ℕ → World F → Option ℕ
  session_of_player ctx player_id w =
      if ctx.has_connections then get_by_player_id player_id w.connections else none

  -- `if (session) session->SetRoomId(room_id)`
  unfoldable pub set_session_room : Option ℕ → ℕ → World F → World F
  set_session_room none room_id w = w
  set_session_room (some s) room_id w = record w {
    objects = adjust s (set_room_id room_id) w.objects;
  }

  -- `if (context_->player_manager)`, then setters on the player that GetOrCreatePlayer gives.
  unfoldable pub update_player : Context → ℕ → (Player → Player) → World F → World F
  update_player ctx player_id f w =
      if ctx.has_players
      then record w { players = change_player (ctx.default_name player_id) player_id f w.players }
      else w

  -- Room::Broadcast on one of the rooms.
  unfoldable pub broadcast_to : Context → Room → Message F → World F → World F
  unfolding broadcast send_all
  broadcast_to ctx room message w = send_all (broadcast (manager ctx w) message room) w
