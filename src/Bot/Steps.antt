-- ===== src/Bot/Steps.antt =====
-- What io_context runs for a bot after Start, one work after the other, and Stop between.
use cpp_game_room.Base.{
  ℕ, zero, suc, Bool, true, false, not, ◌&&◌, Option, none, some, List, [], ◌∷◌, ◌==◌,
  if◌then◌else◌,
}
use cpp_game_room.Base.Int.{pos}
use cpp_game_room.Net.Codec.{encode}
use cpp_game_room.Bot.State.{
  BotClient, Task, connects, heartbeats, matches, cancels, rematches, ready_flow, unreadies,
  readies, inputs, disconnects, Work, timer, posted, opening, reading, writing, closing,
  Environment, schedule_random,
}
use cpp_game_room.Bot.Socket.{connect, stop, on_connect, close_socket, send_posted, written}
use cpp_game_room.Bot.Client.{
  heartbeat, match_up, cancel_match, rematch, simulate_disconnect, schedule_ready_flow, unready,
  ready, send_input,
}
use cpp_game_room.Bot.Messages.{on_read}

-- How a work ends: with an error, a timer's cancellation or a closed socket; or well, with the
-- bytes that were read.
pub data Completion : Type 0 where
  fails : Completion
  succeeds : List ℕ → Completion

abbrev pub is_error : Completion → Bool
is_error fails = true
is_error (succeeds bytes) = false

abbrev pub bytes_of : Completion → Option (List ℕ)
bytes_of fails = none
bytes_of (succeeds bytes) = some bytes

module _ {F : Type 0} (env : Environment F) where
  -- The callbacks of the timers.
  unfoldable pub run_task : Task → BotClient → BotClient
  unfolding connect heartbeat match_up cancel_match rematch simulate_disconnect schedule_ready_flow
      unready ready send_input schedule_random
  run_task (connects reconnect) c = connect env reconnect c
  run_task heartbeats c = heartbeat env c
  run_task matches c = match_up env c
  run_task cancels c = cancel_match env c
  run_task rematches c = rematch env c
  run_task (disconnects point) c = simulate_disconnect env point c
  run_task ready_flow c =
      if c.connected && not (c.room_id == 0) then schedule_ready_flow env c else c
  run_task unreadies c = schedule_random env (pos 100) (pos 600) readies (unready env c)
  run_task readies c = ready env c
  run_task inputs c = send_input env c

  -- The handler of a work that is not pending any more. `none` is an exception that ends the bot.
  unfoldable pub complete : Work → Completion → BotClient → Option BotClient
  unfolding run_task send_posted on_connect on_read written close_socket
  complete (timer delay task) how c =
      some (if not (is_error how) && c.running then run_task task c else c)
  complete (posted packet) how c = send_posted (not (is_error how)) (encode packet) c
  complete (opening s reconnect) how c = some (on_connect env s reconnect (is_error how) c)
  complete (reading s) how c = some (on_read env s (bytes_of how) c)
  complete (writing s bytes) how c = some (written s (is_error how) c)
  complete closing how c = some (close_socket c)

-- The work at a place, and the others.
abbrev pub behind : Work → Option (Work × List Work) → Option (Work × List Work)
behind w none = none
behind w (some (x, rest)) = some (x, w ∷ rest)

abbrev pub take_work : ℕ → List Work → Option (Work × List Work)
take_work i [] = none
take_work zero (w ∷ ws) = some (w, ws)
take_work (suc i) (w ∷ ws) = behind w (take_work i ws)

-- An event after Start: the work at a place of the list ends, or the program calls Stop. Works end
-- in any order, timers too, so nothing depends on how long they take. The stopped io_context runs
-- nothing more, so there is no second Start.
pub data BotEvent : Type 0 where
  stops : BotEvent
  ends : ℕ → Completion → BotEvent

-- An exception ends the bot.
abbrev pub and_then : Option BotClient → (BotClient → Option BotClient) → Option BotClient
and_then none f = none
and_then (some c) f = f c

module _ {F : Type 0} (env : Environment F) where
  unfoldable pub end_work : Option (Work × List Work) → Completion → BotClient → Option BotClient
  unfolding complete
  end_work none how c = some c
  end_work (some (w, rest)) how c = complete env w how (record c { pending = rest })

  unfoldable pub step : BotEvent → BotClient → Option BotClient
  unfolding stop end_work
  step stops c = some (stop c)
  step (ends i how) c = end_work (take_work i c.pending) how c

  -- Events in a row.
  unfoldable pub run : List BotEvent → BotClient → Option BotClient
  unfolding step
  run [] c = some c
  run (e ∷ es) c = and_then (step e c) (run es)
