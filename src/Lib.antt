-- ===== src/Lib.antt =====
-- The game server of src/: a C++17 server of room-based battles. A client's bytes come through a
-- connection, are cut into packets and dispatched to services; players wait in a match queue, are
-- put into a room, and when all are ready a battle runs in ticks until one player is left, whose
-- battle is then settled in MySQL. A load generator, the bots, plays against it. This library
-- models the parts below, each as a pure state with one function per method: a method locks its
-- object's mutex for its whole run, so a concurrent history of an object is a sequence of its
-- methods.
--
-- The parts and their files:
--   Net/Packet, Net/Codec          src/net/packet.h, packet.cpp, codec.cpp: byte order, framing and
--                                  the decoding loop of a connection's stream. Bytes are numbers
--                                  below 256. A thrown exception is a value.
--   Net/Protocol, Net/Delivery     src/protocol: message ids, packets built from messages, and their
--                                  way from one connection to another.
--   Match/Queue                    src/match/match_queue.cpp: the deque of waiting players and the
--                                  hash set beside it.
--   Room                           src/room/room.cpp, room_player.h, room_state.h: one room. The
--                                  connection manager is a function from player ids to session ids,
--                                  and a broadcast is the list of the messages it sends.
--   Game/State, Game/Battle        src/game/game_state.h, input_buffer.cpp, game_room.cpp: the logic
--                                  of one battle.
--   Storage/Statement, Storage/Mysql
--                                  src/storage/mysql_client.cpp: the connection and transactions
--                                  over the C library, with each SQL text as a constructor.
--   Storage/Players, Storage/Battles
--                                  src/storage/player_repository.cpp, battle_repository.cpp: the
--                                  repositories, and the settlement of a battle.
--   Game/Settlement                src/game/settlement_service.cpp: SettleBattle, from the losers of
--                                  a battle to its results, the repositories and the ranking, of
--                                  which only UpdateScore is used, as an interface.
--   Net/Session, Net/Connections   src/net/session.h, session.cpp, connection_manager.h: sessions in
--                                  a store under their ids, and the two maps of the manager.
--   Net/Listener                   src/net/tcp_server.cpp: listening, and which connection is awaited.
--   Net/Connection                 src/net/tcp_connection.cpp: the handlers of a connection's strand,
--                                  each a step with the effects that it asks for.
--   Player                         src/player: the players in memory.
--   Service/World                  src/server/service_context.h: the state that the services share.
--   Service/Rooms, Service/Leaving src/room/room_manager.cpp: rooms, readiness, input, and leaving.
--   Service/Matching               src/match/match_service.cpp: requests to match, and new rooms.
--   Service/Login                  src/login/login_service.cpp: accounts, tokens, reconnection.
--   Service/Server                 src/server/game_server.cpp, src/game/game_loop.cpp,
--                                  state_sync.cpp: the rounds of the loop with the callback that
--                                  settles, connections that come and go, and heartbeats.
--   Service/Startup                src/server/game_server.cpp, src/game/game_loop.cpp: how the
--                                  parts are made, started and stopped.
--   Service/Finished               the callback for a battle that is over, once.
--   Service/Payout                 the same callback, round after round.
--   Service/Dispatcher             src/server/message_dispatcher.cpp: handlers by message id.
--   Service/Histories              histories of all these events, over one state.
--   Timer                          src/timer/timer_manager.cpp: a round of the periodic tasks.
--   Storage/Redis, Rank, Service/Ranking
--                                  src/storage/redis_client.cpp, src/rank/rank_service.cpp.
--   Config                         src/config/config_manager.cpp: the line parser of the settings.
--   Bot                            bot/bot_client.h, bot_client.cpp: a client that plays against the
--                                  server; State, Socket, Client and Messages hold its methods, and
--                                  Steps what io_context runs. Bot/Manager, Bot/Options:
--                                  bot_manager.cpp and the arguments of bot_main.cpp.
--   Base                           lists, maps, integers and tests that the parts share.
--
-- The services keep pointers to each other in a context; here a service is its functions on the
-- shared state World, a pointer to a session, player or room is its id, and a handler is one step.
-- A request is an empty option where the packet does not parse. What is sent is a list of messages
-- with their sessions.
--
-- How the code is read. An int64_t id is its bit pattern, a number below 2 ^ 64, and signed
-- comparisons are written out on it; scores and hit points are integers, which the constants of
-- the code keep far from their bounds. An unordered_map is a list of entries in the order in which
-- it is walked. A null pointer that the code tests is a flag or an empty option.
--
-- Fuel: Codec::Decode's loop runs on one round more than there are bytes; every round takes at
-- least twelve of them, so it never runs out, which is part of what is proved. TryCreateRoom's loop
-- runs on one round more than there are waiting players; a round that goes on takes one off at
-- least. Every other loop is recursion on the list that it walks.
--
-- What is not in the source is a parameter. Floating point numbers are a type with the operations
-- that the battle uses (Game/Float), of which nothing is assumed. The MySQL library with its server
-- is a record of calls on an unknown state (Storage/Mysql); the settlement is proved under what
-- MySQL documents of transactions and of the statements used (Storage/Battles/Tables): START
-- TRANSACTION commits what is pending, so nothing is said of it unless a commit, a rollback or a
-- closed connection came before. A server that fails on demand shows that this can be met.
--
-- Likewise hiredis with its server (Storage/Redis); the texts of numbers, std::stoi, std::strtoll and
-- std::atoi; the clock, as an argument of the handlers; and protobuf, as messages that are data.
--
-- A bot is a state with the list of the works that its io_context has still to run: timers, posted
-- handlers, and the connection, reads and writes of its sockets, which are numbers. An event ends
-- one of them, at any place of the list, well or with an error, and runs its handler; so timers may
-- end in any order, whatever their delays. The resolver, the clock, the random numbers and protobuf
-- are an environment, asked by a running count. Delays are small enough not to overflow an int.
--
-- Not modelled: the sockets and threads themselves, logging, what is printed, and the random engine.
-- A handler that takes several locks is one step here, except that a login may be split in two, so
-- interleavings inside of the handlers are not covered.
pub mod Base
pub mod Net
pub mod Match
pub mod Room
pub mod Storage
pub mod Game
pub mod Player
pub mod Service
pub mod Timer
pub mod Rank
pub mod Config
pub mod Bot
