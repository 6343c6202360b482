-- ===== src/Service/Startup.antt =====
-- src/server/game_server.cpp, src/game/game_loop.cpp: how the server's parts are made, started and
-- stopped. A thread is a flag.
use cpp_game_room.Base.{ℕ, Bool, true, false, not, Option, none, some, [], if◌then◌else◌}
use cpp_game_room.Base.Int.{ℤ, pos, leb_ℤ}
use cpp_game_room.Config.{ConfigManager}
use cpp_game_room.Net.Listener
use cpp_game_room.Net.Listener.{TcpServer, ListenCall, new_server}
use cpp_game_room.Storage.Mysql
use cpp_game_room.Storage.Mysql.{MysqlApi}
use cpp_game_room.Storage.Redis
use cpp_game_room.Storage.Redis.{RedisApi}
use cpp_game_room.Timer
use cpp_game_room.Timer.{TimerManager, add_timer}

-- GameLoop beside its battles, which are in World.
pub record GameLoop : Type 0 where
  pub tick_interval_ms : ℤ
  pub running : Bool

-- The constructor.
abbrev pub new_loop : ℤ → GameLoop
new_loop tick_interval_ms = record {
  tick_interval_ms = if leb_ℤ tick_interval_ms (pos 0) then pos 50 else tick_interval_ms;
  running = false;
}

-- GameLoop::Start and Stop, and whether they make the thread, or wait for it.
unfoldable pub start_loop : GameLoop → GameLoop × Bool
start_loop l = (record l { running = true }, not l.running)

unfoldable pub stop_loop : GameLoop → GameLoop × Bool
stop_loop l = (record l { running = false }, l.running)

-- RankService::Init on the client of the server; its result is not looked at.
abbrev pub init_rank : (redis : RedisApi) → Redis.Client redis → Redis.Client redis
init_rank redis r = (Redis.connect redis r).0

-- The parts that run, over the callbacks of the timer.
pub record Parts (C : Type 0) : Type 0 where
  pub game_loop : GameLoop
  pub timer : TimerManager C
  pub tcp : TcpServer

module _ (api : MysqlApi) (redis : RedisApi) {C : Type 0} where
  -- GameServer::Init, with the callback of the heartbeat check and the time of the steady clock.
  unfoldable pub init :
      ConfigManager
      → C
      → ℕ
      → ℕ
      → Mysql.Client api
      → Redis.Client redis
      → (Mysql.Client api × Redis.Client redis) × Option (Parts C)
  unfolding Mysql.connect Redis.connect add_timer
  init config check now next_session_id m r =
      let (m', m_ok) = Mysql.connect api m in
      let (r', r_ok) = Redis.connect redis r in
      if not m_ok then ((m', r), none) else if not r_ok then ((m', r'), none) else (
        (m', init_rank redis r'),
        some (record {
          game_loop = new_loop config.tick_interval_ms;
          timer = record { running = false; tasks = add_timer 5000 check now [] };
          tcp = new_server config.worker_threads next_session_id;
        }),
      )

module _ {C : Type 0} where
  -- GameServer::Start, as far as TcpServer::Start comes before it waits for its threads.
  unfoldable pub start_parts : (ListenCall → Bool) → Parts C → Parts C × Bool
  unfolding start_loop Timer.start Listener.start
  start_parts answers p =
      let (tcp', listening) = Listener.start answers p.tcp in
      (
        record {
          game_loop = (start_loop p.game_loop).0;
          timer = (Timer.start p.timer).0;
          tcp = tcp';
        },
        listening,
      )

  -- GameServer::Stop
  unfoldable pub stop_parts : Parts C → Parts C
  unfolding stop_loop Timer.stop Listener.stop
  stop_parts p = record {
    tcp = Listener.stop p.tcp;
    timer = (Timer.stop p.timer).0;
    game_loop = (stop_loop p.game_loop).0;
  }
