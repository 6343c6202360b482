-- ===== src/Bot/Manager.antt =====
-- bot/bot_manager.cpp: the bots that are started together, each with its own io_context. What
-- the statistics count is summed over the bots.
use cpp_game_room.Base.{ℕ, zero, suc, ◌+◌, Option, none, some, List, [], ◌∷◌, ◌++◌}
use cpp_game_room.Base.Int.{ℤ, pos, negsuc}
use cpp_game_room.Bot.State.{BotClient, BotStats, Environment, new_bot}
use cpp_game_room.Bot.Socket.{start, stop}

pub record BotManager : Type 0 where
  pub bots : List BotClient

-- The constructor of BotManager.
abbrev pub new_manager : BotManager
new_manager = record { bots = [] }

abbrev pub no_stats : BotStats
no_stats = record {
  connect_ok = 0;
  connect_failed = 0;
  disconnects = 0;
  login_ok = 0;
  login_failed = 0;
  reconnect_ok = 0;
  reconnect_failed = 0;
  match_ok = 0;
  match_failed = 0;
  match_cancel = 0;
  match_success = 0;
  ready = 0;
  unready = 0;
  room_playing = 0;
  input_sent = 0;
  game_state = 0;
  game_over = 0;
}

-- Start's loop from the index `i`, over the environments of the bots.
unfoldable pub start_from : {F : Type 0} → (ℕ → Environment F) → ℕ → ℕ → BotManager → BotManager
unfolding start
start_from envs i zero m = m
start_from envs i (suc n) m =
    start_from envs (i + 1) n
      (record m { bots = m.bots ++ start (envs i) (new_bot (some no_stats)) ∷ [] })

-- Start; `none` is the exception of reserve.
unfoldable pub start_bots : {F : Type 0} → (ℕ → Environment F) → ℤ → BotManager → Option BotManager
unfolding start_from
start_bots envs (pos n) m = some (start_from envs 0 n m)
start_bots envs (negsuc n) m = none

abbrev stop_each : List BotClient → List BotClient
stop_each [] = []
stop_each (c ∷ cs) = stop c ∷ stop_each cs

-- Stop: the bots as they are when they are destroyed, and the manager.
unfoldable pub stop_bots : BotManager → List BotClient × BotManager
unfolding stop
stop_bots m = (stop_each m.bots, record m { bots = [] })
