-- ===== src/Service/Login.antt =====
-- src/login/login_service.cpp: accounts, tokens, heartbeats and reconnection.
use text.Mathlib.Text.{◌==◌ as str_eq}
use cpp_game_room.Base.{
  ℕ, ◌+◌, ◌%◌, ◌^◌, Bool, true, false, Option, none, some, List, [], ◌∷◌, ◌==◌, if◌then◌else◌,
  String,
}
use cpp_game_room.Base.Int.{pos}
use cpp_game_room.Base.Map.{Map, lookup, insert, adjust}
use cpp_game_room.Net.Session.{bind_player_id, update_heartbeat_time}
use cpp_game_room.Net.Connections.{bind_player}
use cpp_game_room.Player.{
  Player, PlayerStatus, in_room, set_status, set_score, set_room, get_or_create_player, set_online,
}
use cpp_game_room.Room.{Room, is_playing, on_player_reconnect}
use cpp_game_room.Storage.Statement.{PlayerData}
use cpp_game_room.Storage.Mysql.{MysqlApi, Client}
use cpp_game_room.Storage.Players.{load_player, create_player}
use cpp_game_room.Service.World.{
  World, Context, login_resp, heartbeat_resp, reconnect_resp, send, close_session,
  session_of_player, set_session_room,
}
use cpp_game_room.Service.Rooms.{get_player_room, put_room}

-- LoginService, with IdGenerator::NextPlayerId, which only it calls.
pub record LoginService : Type 0 where
  pub account_players : List (String × ℕ)
  pub session_tokens : Map String
  pub next_player_id : ℕ

unfoldable pub find_account : String → List (String × ℕ) → Option ℕ
find_account key [] = none
find_account key ((k, p) ∷ rest) = if str_eq k key then some p else find_account key rest

unfoldable pub insert_account : String → ℕ → List (String × ℕ) → List (String × ℕ)
insert_account key p [] = (key, p) ∷ []
insert_account key p ((k, q) ∷ rest) =
    if str_eq k key then (k, p) ∷ rest else (k, q) ∷ insert_account key p rest

abbrev pub next_id : LoginService → LoginService
next_id l = record l { next_player_id = (l.next_player_id + 1) % 2 ^ 64 }

-- The key of an account: a new guest name for the empty one.
unfoldable pub account_key : Context → String → LoginService → LoginService × String
account_key ctx account l =
    if str_eq account "" then (next_id l, ctx.guest_name l.next_player_id) else (l, account)

-- The player of a key that was looked up: whether it is new, and its id.
unfoldable pub player_of_key : String → Option ℕ → LoginService → LoginService × Bool × ℕ
player_of_key key (some p) l = (l, false, p)
player_of_key key none l =
    let l' = next_id l in
    (
      record l' { account_players = insert_account key l.next_player_id l.account_players },
      true,
      l.next_player_id,
    )

-- GetOrCreatePlayerId without the write to the repository.
unfoldable pub get_or_create_player_id : Context → String → LoginService → LoginService × Bool × ℕ
unfolding account_key player_of_key find_account
get_or_create_player_id ctx account l =
    let (l', key) = account_key ctx account l in
    player_of_key key (find_account key l'.account_players) l'

-- `token_it == end() || token_it->second != token`, negated.
unfoldable pub is_token : String → Option String → Bool
is_token token none = false
is_token token (some t) = str_eq t token

abbrev pub fresh_data : Context → ℕ → PlayerData
fresh_data ctx p = record {
  player_id = p;
  name = ctx.default_name p;
  score = pos 1000;
  win_count = pos 0;
  lose_count = pos 0;
}

module _ {F : Type 0} (ctx : Context) where
  -- `if (player)`, then setters.
  unfoldable pub touch_player : ℕ → (Player → Player) → World F → World F
  touch_player p f w =
      if ctx.has_players
      then record w { players = record w.players { players = adjust p f w.players.players } }
      else w

  -- The return to a room that was looked up, and the room's id for the response.
  unfoldable pub rejoin : Option Room → ℕ → ℕ → World F → World F × ℕ
  unfolding touch_player set_session_room
  rejoin none s p w = (touch_player p (set_room 0) w, 0)
  rejoin (some room) s p w =
      let w1 = put_room (on_player_reconnect p (some s) room).0 w in
      let w2 = set_session_room (some s) room.room_id w1 in
      let status = if is_playing room.state then PlayerStatus.playing else in_room in
      (touch_player p (λ q. set_status status (set_room room.room_id q)) w2, room.room_id)

  unfoldable pub return_to_room : ℕ → ℕ → World F → World F × ℕ
  unfolding rejoin get_player_room
  return_to_room s p w = if ctx.has_rooms then rejoin (get_player_room p w) s p w else (w, 0)

  -- `old_session->Close()` for another session of the player.
  unfoldable pub close_old : Option ℕ → ℕ → World F → World F
  unfolding close_session
  close_old none s w = w
  close_old (some old) s w = if old == s then w else close_session old w

  -- `session->BindPlayerId(p)`, and BindPlayer of the manager.
  unfoldable pub bind : ℕ → ℕ → World F → World F
  unfolding bind_player
  bind s p w =
      let w' = record w { objects = adjust s (bind_player_id p) w.objects } in
      if ctx.has_connections
      then record w' { connections = bind_player p (some s) w'.connections }
      else w'

  unfoldable pub beat : ℕ → ℕ → World F → World F
  beat s now w = record w { objects = adjust s (update_heartbeat_time now) w.objects }

  -- HandleHeartbeat, at the times that NowMs gives to its two calls.
  unfoldable pub handle_heartbeat : Option ℕ → ℕ → ℕ → World F → World F
  unfolding beat send
  handle_heartbeat none now later w = w
  handle_heartbeat (some s) now later w = send s (heartbeat_resp later) (beat s now w)

  -- The player's object at a login.
  unfoldable pub enter_player : PlayerData → ℕ → ℕ → World F → World F
  enter_player d s p w =
      let m = get_or_create_player (ctx.default_name p) p d.name w.players in
      let m' = record m { players = adjust p (set_score d.score) m.players } in
      if ctx.has_players then record w { players = set_online p s m' } else w

  unfoldable pub enter_again : ℕ → ℕ → World F → World F
  enter_again s p w =
      let m = set_online p s w.players in
      if ctx.has_players
      then record w { players = get_or_create_player (ctx.default_name p) p "" m }
      else w

  -- HandleLogin after the player's data is there.
  unfoldable pub finish_login : PlayerData → String → ℕ → ℕ → World F → World F
  unfolding enter_player return_to_room send
  finish_login d token s p w =
      let (w', room_id) = return_to_room s p (enter_player d s p w) in
      send s (login_resp 0 p d.name token) w'

  -- HandleLogin up to the player's data.
  unfoldable pub begin_login : ℕ → ℕ → ℕ → World F → World F
  unfolding close_old bind beat
  begin_login s p now w = beat s now (bind s p (close_old (session_of_player ctx p w) s w))

  -- HandleReconnect with the token that belongs to the player.
  unfoldable pub finish_reconnect : ℕ → ℕ → World F → World F
  unfolding bind enter_again return_to_room send
  finish_reconnect s p w =
      let (w', room_id) = return_to_room s p (enter_again s p (bind s p w)) in
      send s (reconnect_resp 0 room_id) w'

  -- HandleReconnect, of the player id and the token of a request.
  unfoldable pub handle_reconnect :
      Option ℕ → Option (ℕ × String) → LoginService → World F → World F
  unfolding send is_token finish_reconnect
  handle_reconnect none request l w = w
  handle_reconnect (some s) none l w = send s (reconnect_resp 1 0) w
  handle_reconnect (some s) (some (p, token)) l w =
      if is_token token (lookup p l.session_tokens)
      then finish_reconnect s p w
      else send s (reconnect_resp 2 0) w

module _ (api : MysqlApi) (ctx : Context) where
  -- GetOrCreatePlayerId's write, for a player that is new; `repository` is none for a null pointer,
  -- else whether its MySQL pointer is set.
  unfoldable pub save_new : Option Bool → Bool → ℕ → Client api → Client api
  save_new none new p c = c
  save_new (some mysql) new p c =
      if new then (create_player api mysql (fresh_data ctx p) c).0 else c

  unfoldable pub load_data : Option Bool → ℕ → Client api → Client api × PlayerData
  load_data none p c = (c, fresh_data ctx p)
  load_data (some mysql) p c = load_player api mysql ctx.default_name p c

  -- HandleLogin, of the account of a request, at the time that NowMs gives.
  unfoldable pub handle_login :
      {F : Type 0}
      → Option Bool
      → Option ℕ
      → Option String
      → ℕ
      → (World F × LoginService) × Client api
      → (World F × LoginService) × Client api
  unfolding get_or_create_player_id save_new load_data begin_login finish_login send
  handle_login repository none request now state = state
  handle_login repository (some s) none now ((w, l), c) = ((send s (login_resp 1 0 "" "") w, l), c)
  handle_login repository (some s) (some account) now ((w, l), c) =
      let (l1, new, p) = get_or_create_player_id ctx account l in
      let c1 = save_new repository new p c in
      let token = ctx.token_of p now in
      let l2 = record l1 { session_tokens = insert p token l1.session_tokens } in
      let w1 = begin_login ctx s p now w in
      let (c2, d) = load_data repository p c1 in ((finish_login ctx d token s p w1, l2), c2)
