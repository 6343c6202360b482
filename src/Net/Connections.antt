-- ===== src/Net/Connections.antt =====
-- src/net/connection_manager.h: the sessions by their ids, and by the players bound to them.
use cpp_game_room.Base.{ℕ, Bool, false, Option, none, some, List, [], ◌∷◌, ◌==◌, if◌then◌else◌}
use cpp_game_room.Base.Map.{Map, lookup, insert, remove}
use cpp_game_room.Net.Session.{Session, player_id_of}

-- The values of both maps are pointers, that is session ids.
pub record ConnectionManager : Type 0 where
  pub sessions : Map ℕ
  pub player_sessions : Map ℕ

abbrev pub no_connections : ConnectionManager
no_connections = record { sessions = []; player_sessions = [] }

unfoldable pub add : Map Session → Option ℕ → ConnectionManager → ConnectionManager
add objects none cm = cm
add objects (some s) cm =
    let cm' = record cm { sessions = insert s s cm.sessions } in
    if player_id_of objects s == 0
    then cm'
    else record cm' { player_sessions = insert (player_id_of objects s) s cm.player_sessions }

unfoldable pub bind_player : ℕ → Option ℕ → ConnectionManager → ConnectionManager
bind_player player_id none cm = cm
bind_player player_id (some s) cm = record cm {
  player_sessions = insert player_id s cm.player_sessions;
}

abbrev pub is_at : ℕ → Option ℕ → Bool
is_at s none = false
is_at s (some t) = t == s

-- The binding of the session's player goes, if it still is this session's.
unfoldable pub unbind : Map Session → Option ℕ → Map ℕ → Map ℕ
unbind objects none player_sessions = player_sessions
unbind objects (some s) player_sessions =
    let player_id = player_id_of objects s in
    if is_at s (lookup player_id player_sessions)
    then remove player_id player_sessions
    else player_sessions

-- ConnectionManager::Remove
unfoldable pub remove_session : Map Session → ℕ → ConnectionManager → ConnectionManager
unfolding unbind
remove_session objects session_id cm = record {
  sessions = remove session_id cm.sessions;
  player_sessions = unbind objects (lookup session_id cm.sessions) cm.player_sessions;
}

unfoldable pub get : ℕ → ConnectionManager → Option ℕ
get session_id cm = lookup session_id cm.sessions

unfoldable pub get_by_player_id : ℕ → ConnectionManager → Option ℕ
get_by_player_id player_id cm = lookup player_id cm.player_sessions

abbrev values : Map ℕ → List ℕ
values [] = []
values ((k, v) ∷ m) = v ∷ values m

unfoldable pub all_sessions : ConnectionManager → List ℕ
all_sessions cm = values cm.sessions
