-- ===== src/Net/Session.antt =====
-- src/net/session.h and session.cpp: what a session keeps. Sessions are shared objects: they stand
-- in a store under their ids, and a pointer to one is its id.
use cpp_game_room.Base.{ℕ, Bool, false, Option, none, some}
use cpp_game_room.Base.Map.{Map, lookup}

pub record Session : Type 0 where
  pub session_id : ℕ
  pub player_id : ℕ
  pub room_id : ℕ
  -- Whether the weak pointer to the connection still locks.
  pub conn : Bool
  pub last_heartbeat_ms : ℕ

-- Session::Session, at the time that NowMs gives.
unfoldable pub new_session : ℕ → Bool → ℕ → Session
new_session session_id conn now = record {
  session_id = session_id;
  player_id = 0;
  room_id = 0;
  conn = conn;
  last_heartbeat_ms = now;
}

unfoldable pub bind_player_id : ℕ → Session → Session
bind_player_id player_id s = record s { player_id = player_id }

unfoldable pub set_room_id : ℕ → Session → Session
set_room_id room_id s = record s { room_id = room_id }

unfoldable pub update_heartbeat_time : ℕ → Session → Session
update_heartbeat_time now s = record s { last_heartbeat_ms = now }

-- Reads through a pointer. A pointer that is not null names a session of the store.
abbrev pub read {ℓ} : {A : Type ℓ} → (Session → A) → A → Option Session → A
read f missing none = missing
read f missing (some s) = f s

abbrev pub player_id_of : Map Session → ℕ → ℕ
player_id_of objects s = read (λ o. o.player_id) 0 (lookup s objects)

abbrev pub room_id_of : Map Session → ℕ → ℕ
room_id_of objects s = read (λ o. o.room_id) 0 (lookup s objects)

-- conn_.lock() of Session::SendPacket and Session::Close.
abbrev pub is_linked : Map Session → ℕ → Bool
is_linked objects s = read (λ o. o.conn) false (lookup s objects)
