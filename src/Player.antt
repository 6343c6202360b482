-- ===== src/Player.antt =====
-- src/player: the players in memory. A Player is never erased from the map of the manager, so a
-- pointer to one is the player's id.
use text.Mathlib.Text.{◌==◌ as str_eq}
use cpp_game_room.Base.{ℕ, Bool, Option, if◌then◌else◌, String}
use cpp_game_room.Base.Int.{ℤ, pos}
use cpp_game_room.Base.Map.{Map, lookup, insert, remove, adjust, has}

pub data PlayerStatus : Type 0 where
  offline online matching in_room playing : PlayerStatus

pub record Player : Type 0 where
  pub player_id : ℕ
  pub name : String
  pub score : ℤ
  pub status : PlayerStatus
  pub room_id : ℕ

-- Player::Player with its default score.
unfoldable pub new_player : ℕ → String → Player
new_player player_id name = record {
  player_id = player_id;
  name = name;
  score = pos 1000;
  status = offline;
  room_id = 0;
}

unfoldable pub set_status : PlayerStatus → Player → Player
set_status status p = record p { status = status }

unfoldable pub set_score : ℤ → Player → Player
set_score score p = record p { score = score }

unfoldable pub set_room : ℕ → Player → Player
set_room room_id p = record p { room_id = room_id }

pub record PlayerManager : Type 0 where
  pub players : Map Player
  pub online_sessions : Map ℕ

-- The first argument is `"player_" + std::to_string(player_id)`.
unfoldable pub get_or_create_player : String → ℕ → String → PlayerManager → PlayerManager
unfolding new_player
get_or_create_player default player_id name m = if has player_id m.players then m else record m {
  players =
      insert player_id (new_player player_id (if str_eq name "" then default else name)) m.players;
}

unfoldable pub get_player : ℕ → PlayerManager → Option Player
get_player player_id m = lookup player_id m.players

unfoldable pub set_online : ℕ → ℕ → PlayerManager → PlayerManager
set_online player_id session m = record {
  players = adjust player_id (set_status online) m.players;
  online_sessions = insert player_id session m.online_sessions;
}

unfoldable pub set_offline : ℕ → PlayerManager → PlayerManager
set_offline player_id m = record {
  players = adjust player_id (set_status offline) m.players;
  online_sessions = remove player_id m.online_sessions;
}

unfoldable pub is_online : ℕ → PlayerManager → Bool
is_online player_id m = has player_id m.online_sessions

-- `manager->GetOrCreatePlayer(player_id)` and then calls of setters on the player.
unfoldable pub change_player : String → ℕ → (Player → Player) → PlayerManager → PlayerManager
change_player default player_id f m =
    let m' = get_or_create_player default player_id "" m in
    record m' { players = adjust player_id f m'.players }
