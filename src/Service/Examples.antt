-- ===== src/Service/Examples.antt =====
-- The services at concrete inputs: two players who log in and are matched.
use cpp_game_room.Base.{ℕ, suc, ◌^◌, ◌<◌, ltb, ◌≡◌, refl, true, some, arith, List, [], ◌∷◌}
use cpp_game_room.Base.Int.{ℤ, pos}
use cpp_game_room.Base.Map.{lookup, insert, adjust}
use cpp_game_room.Match.Queue.{push, try_pop_n, pop_loop, contains, erase, size}
use cpp_game_room.Match.Queue.Refinement.{Inv}
use cpp_game_room.Game.Settlement.{RankService}
use cpp_game_room.Game.Battle.Examples.{tenths}
use cpp_game_room.Storage.Battles.Server.{server, client}
use cpp_game_room.Storage.Mysql.{Client}
use cpp_game_room.Storage.Statement.{PlayerData}
use cpp_game_room.Service.World.{
  World, Context, full_context, send, set_session_room, update_player, close_session,
}
use cpp_game_room.Net.Session.{new_session, bind_player_id, update_heartbeat_time, set_room_id}
use cpp_game_room.Net.Connections.{add, bind_player, get_by_player_id}
use cpp_game_room.Player.{get_or_create_player, change_player, set_online}
use cpp_game_room.Service.Rooms.{get_player_room, room_behind, create_room, assign_room}
use cpp_game_room.Service.Login.{
  begin_login, close_old, bind, beat, finish_login, enter_player, return_to_room, rejoin,
  touch_player,
}
use cpp_game_room.Service.Matching.{
  create_rooms, try_create_room, handle_match, start_matching, make_room, notify_players,
}
use cpp_game_room.Service.Server.{Server, accept}
use cpp_game_room.Service.Core.{core}
use cpp_game_room.Service.Grouping.{Grouped, try_create_room-Grouped, create_rooms-returns}
use cpp_game_room.Service.Served.{Served, start_matching-Served}
use cpp_game_room.Service.Consistent.{Consistent}
use cpp_game_room.Service.Histories.{
  Event, matches, begins_login, ends_login, accepts, new_world, new_world-Consistent, handle, run,
  Fits, run-Consistent,
}

-- Names and tokens that do not matter here.
abbrev pub context : Context
context = full_context 2 (λ p. "player") (λ p. "guest") (λ p now. "token")

abbrev pub ranking : RankService
ranking = record { Store = List (ℕ × ℤ); update_score = λ p score s. ((p, score) ∷ s, true) }

abbrev start : Server ℤ (Client server) (List (ℕ × ℤ))
start = record { world = new_world; mysql = client []; store = []; pending = [] }

abbrev data_of : ℕ → PlayerData
data_of p = record {
  player_id = p;
  name = "player";
  score = pos 1000;
  win_count = pos 0;
  lose_count = pos 0;
}

-- Two connections, two logins, and two requests to match.
abbrev events : List (Event ℤ)
events =
    accepts 1 10
    ∷ accepts 2 11
    ∷ begins_login 1 100001 12
    ∷ ends_login (data_of 100001) "token" 1 100001
    ∷ matches (some 1) (some 100001)
    ∷ matches (some 2) (some 100002)
    ∷ []

below : (n : ℕ) → ltb n (2 ^ 64) ≡ true → n < 2 ^ 64
below n h = ground arith

events-Fits : Fits server ranking context tenths events start
unfolding handle bind_player_id update_heartbeat_time set_room_id get_by_player_id close_session
    set_online accept add new_session begin_login close_old bind bind_player beat finish_login
    enter_player get_or_create_player return_to_room rejoin touch_player get_player_room room_behind
    handle_match start_matching try_create_room create_rooms make_room create_room assign_room
    notify_players update_player change_player set_session_room send push try_pop_n pop_loop
    contains erase size lookup insert adjust
events-Fits = (
  below _ refl,
  (below _ refl, (below _ refl, (below _ refl, (below _ refl, (below _ refl, tt))))),
)

run-Consistent_example : Consistent (core (run server ranking context tenths events start).world)
run-Consistent_example =
    run-Consistent server ranking context tenths refl events start new_world-Consistent events-Fits

-- Five wait, and a room takes two.
abbrev crowd : World ℤ
crowd = record (new_world {F = ℤ}) {
  queue = record { queue = 5 ∷ 6 ∷ 7 ∷ 8 ∷ 9 ∷ []; in_queue = 5 ∷ 6 ∷ 7 ∷ 8 ∷ 9 ∷ [] };
}

crowd-Inv : Inv crowd.queue
unfolding contains
crowd-Inv = record {
  distinct = (
    refl,
    (λ e. ground arith),
    (
      refl,
      (λ e. ground arith),
      (refl, (λ e. ground arith), (refl, (λ e. ground arith), (refl, (λ e. ground arith), tt))),
    ),
  );
  same = λ x. refl;
}

try_create_room-Grouped_example : Grouped 2 (core crowd) (core (try_create_room context crowd))
unfolding size
try_create_room-Grouped_example =
    try_create_room-Grouped context refl (omega arith) crowd crowd-Inv (below _ refl)

create_rooms-returns_example : (create_rooms context (suc (size crowd.queue)) crowd).1 ≡ true
create_rooms-returns_example = create_rooms-returns context crowd

-- A sixth one asks with the session 1.
start_matching-Served_example :
    Served 10 crowd.next_room_id (core (start_matching context 10 (some 1) "matching" crowd).0)
unfolding size push contains
start_matching-Served_example =
    start_matching-Served context refl (omega arith) 10 1 "matching" crowd (λ e. ground arith) refl
      crowd-Inv (below _ refl)
