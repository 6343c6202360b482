-- ===== src/Service/LoginExamples.antt =====
-- Logins, closed connections, removed rooms and settlements at concrete inputs.
use cpp_game_room.Base.{ℕ, ◌≡◌, refl, true, false, none, some, arith, List, [], ◌∷◌}
use cpp_game_room.Base.Int.{ℤ}
use cpp_game_room.Base.Map.{lookup, insert}
use cpp_game_room.Net.Session.{Session}
use cpp_game_room.Net.Connections.{get_by_player_id}
use cpp_game_room.Player.{is_online}
use cpp_game_room.Room.{Room, new_room, add_player}
use cpp_game_room.Game.Battle.{GameRoom, new_game_room, start}
use cpp_game_room.Game.Battle.Examples.{tenths}
use cpp_game_room.Storage.Battles.Server.{
  server, server_laws, client, client-Outside, client-Outside,
}
use cpp_game_room.Storage.Mysql.{Client}
use cpp_game_room.Service.World.{World}
use cpp_game_room.Service.Rooms.{remove_room}
use cpp_game_room.Service.Login.{
  LoginService, find_account, insert_account, account_key, player_of_key, get_or_create_player_id,
}
use cpp_game_room.Service.Server.{Server, PendingSettlement, connection_closed, settle_room}
use cpp_game_room.Service.Dispatcher.{
  dispatch, register_all, register_handler, calls_handle_rank, calls_handle_input,
}
use cpp_game_room.Service.Core.{core}
use cpp_game_room.Service.Accounts.{
  Accounts, Found, Admitted, service_after, get_or_create_player_id-Found, handle_login-Admitted,
}
use cpp_game_room.Service.Binding.{Bound, begin_login-Bound}
use cpp_game_room.Service.Login.{begin_login}
use cpp_game_room.Service.Closing.{connection_closed-own}
use cpp_game_room.Service.Freeing.{Freed, remove_room-Freed}
use cpp_game_room.Service.Payout.{Paid, settle_rounds, settle_rounds-Paid}
use cpp_game_room.Service.Finished.{Settled, settle_room-Settled}
use cpp_game_room.Service.Histories.{new_world}
use cpp_game_room.Service.Examples.{context, ranking}

-- The last registration that is made, one in the middle, and an id that nobody registers.
dispatch_rank : dispatch 5001 register_all ≡ some calls_handle_rank
unfolding dispatch register_all register_handler lookup insert
dispatch_rank = refl

dispatch_input : dispatch 4001 register_all ≡ some calls_handle_input
unfolding dispatch register_all register_handler lookup insert
dispatch_input = refl

dispatch_unknown : dispatch 1002 register_all ≡ none
unfolding dispatch register_all register_handler lookup insert
dispatch_unknown = refl

-- One account so far.
abbrev service : LoginService
service = record {
  account_players = ("ann", 100000) ∷ [];
  session_tokens = [];
  next_player_id = 100001;
}

abbrev no_accounts : LoginService
no_accounts = record { account_players = []; session_tokens = []; next_player_id = 100000 }

no_accounts-Accounts : Accounts no_accounts
unfolding find_account
no_accounts-Accounts = record {
  given = λ k p e. absurd (cc e);
  apart = λ k k' p e e'. absurd (cc e);
}

service-Accounts : Accounts service
unfolding get_or_create_player_id account_key player_of_key find_account insert_account
service-Accounts =
    (get_or_create_player_id-Found context "ann" no_accounts refl no_accounts-Accounts
      (omega arith)).accounts

get_or_create_player_id-Found_example :
    Found "bob" service (get_or_create_player_id context "bob" service)
get_or_create_player_id-Found_example =
    get_or_create_player_id-Found context "bob" service refl service-Accounts (omega arith)

handle_login-Admitted_example :
    (p : ℕ) × Admitted ℤ context "ann"
      (context.token_of p 50)
      service
      (service_after server context
        (some true)
        1
        "ann"
        50
        ((new_world {F = ℤ}, service), client []))
      p
handle_login-Admitted_example =
    handle_login-Admitted server context (some true) 1 "ann" 50 new_world service (client []) refl
      service-Accounts (omega arith)

-- The player 7 came back with the session 2 before the session 1 closed.
abbrev session : ℕ → Session
session s = record {
  session_id = s;
  player_id = 7;
  room_id = 0;
  conn = true;
  last_heartbeat_ms = 0;
}

abbrev came_back : World ℤ
came_back = record (new_world {F = ℤ}) {
  objects = (1, session 1) ∷ (2, session 2) ∷ [];
  connections = record { sessions = (1, 1) ∷ (2, 2) ∷ []; player_sessions = (7, 2) ∷ [] };
}

connection_closed-own_example :
    (get_by_player_id 7 (connection_closed 2 came_back).connections ≡ none)
    × (is_online 7 (connection_closed 2 came_back).players ≡ false)
unfolding lookup get_by_player_id
connection_closed-own_example =
    connection_closed-own 2 7 came_back refl refl refl (λ e. ground arith)

-- A room of two, and a battle.
abbrev pair : Room
pair = (add_player 8 (add_player 7 (new_room 1000)).0).0

abbrev with_pair : World ℤ
with_pair = record (new_world {F = ℤ}) {
  rooms = (1000, pair) ∷ [];
  player_room_map = (7, 1000) ∷ (8, 1000) ∷ (9, 1001) ∷ [];
  battles = (1000, new_game_room tenths 1000) ∷ [];
}

remove_room-Freed_example :
    Freed pair (core with_pair) (core (remove_room context pair.room_id with_pair))
unfolding lookup add_player insert
remove_room-Freed_example = remove_room-Freed context refl pair with_pair refl

abbrev over : GameRoom ℤ
over = record (new_game_room tenths 1000) { game_over = true; winner_id = 7 }

abbrev pending : PendingSettlement
pending = record { battle_id = 7; next_attempt = 100 }

abbrev waiting_server : Server ℤ (Client server) (List (ℕ × ℤ))
waiting_server = record {
  world = with_pair;
  mysql = client [];
  store = [];
  pending = (1000, pending) ∷ [];
}

settle_room-Settled_example :
    Settled server ranking context pair over 200 pending waiting_server
      (settle_room server ranking context pair over 200 waiting_server)
unfolding lookup add_player
settle_room-Settled_example =
    settle_room-Settled server ranking context refl pair over 200 pending waiting_server refl refl
      (λ e. ground arith)

-- The player logs in with a third session.
begin_login-Bound_example : Bound 3 7 came_back (begin_login context 3 7 60 came_back)
begin_login-Bound_example = begin_login-Bound context refl 3 7 60 came_back

-- The player 100001 won against 100002.
abbrev duel : GameRoom ℤ
duel = record (start tenths (100001 ∷ 100002 ∷ []) (new_game_room tenths 100001)) {
  game_over = true;
  winner_id = 100001;
}

abbrev faulty : Server ℤ (Client server) (List (ℕ × ℤ))
faulty = record {
  world = with_pair;
  mysql = client (false ∷ true ∷ []);
  store = [];
  pending = (100001, pending) ∷ [];
}

abbrev rounds : List (ℕ × World ℤ)
rounds = (50, with_pair) ∷ (200, with_pair) ∷ (300, with_pair) ∷ (1000000300, with_pair) ∷ []

-- The first round comes too early, and so does the third, after a lost connection in the second.
settle_rounds-Paid_example :
    Paid server server_laws ranking context 7 duel faulty
      (settle_rounds server ranking context pair duel rounds faulty).0
unfolding lookup start
settle_rounds-Paid_example =
    settle_rounds-Paid server server_laws ranking context pair duel rounds 7 pending faulty refl
      refl (λ e. ground arith) (client-Outside _)
