-- ===== src/Bot/Examples.antt =====
-- A bot that logs in, asks for a match, disconnects in the queue and comes back; the arguments of
-- main.
use cpp_game_room.Base.{
  ℕ, ◌/◌, ◌%◌, ◌≡◌, refl, Bool, true, Option, none, some, List, [], ◌∷◌, ◌++◌, if◌then◌else◌,
  String,
}
use cpp_game_room.Base.Int.{ℤ, pos}
use cpp_game_room.Net.Packet.{read_uint32_be}
use cpp_game_room.Net.Codec.{encode, decode, decode_round}
use text.Mathlib.Text.{◌==◌ as str_eq}
use cpp_game_room.Net.Protocol.{ResponseKind, response_id}
use cpp_game_room.Bot.State.{
  BotClient, default_options, Environment, new_bot, Work, timer, posted, reading, heartbeats,
}
use cpp_game_room.Bot.Socket.{start}
use cpp_game_room.Bot.Steps.{Completion, succeeds, BotEvent, ends, run}
use cpp_game_room.Bot.Orderly.{Orderly}
use cpp_game_room.Bot.Runs.{Holds, run-start-Orderly}
use cpp_game_room.Bot.Options.{default_settings, runs, unknown, throws, parse_args}

abbrev answers {ℓ} : {M : Type ℓ} → M → List ℕ → Option M
answers m bytes = some m

-- Every answer is good and every roll of the dice is 1.
abbrev sunny : Environment (Unit {0})
sunny = record {
  resolves = λ n. true;
  now = λ n. n;
  dice = λ n low high. pos 1;
  float = λ n. tt;
  requests = record { serialize = λ r. 1 ∷ 2 ∷ []; parse_from = λ bytes. none };
  login_resp = record { serialize = λ m. []; parse_from = answers (0, 7, "token") };
  reconnect_resp = record { serialize = λ m. []; parse_from = answers (0, 0) };
  match_resp = record { serialize = λ m. []; parse_from = answers 0 };
  match_success = record { serialize = λ m. []; parse_from = answers 5 };
  room_state = record { serialize = λ m. []; parse_from = answers (5, 2) };
  account = "bot_0";
  options = record default_options { cancel_match_percent = pos 0 };
}

-- The bytes of an empty message.
abbrev bytes_for : ResponseKind → List ℕ
bytes_for kind = 0 ∷ 0 ∷ 0 ∷ 8 ∷ 0 ∷ 0 ∷ q ∷ r ∷ 0 ∷ 0 ∷ 0 ∷ 0 ∷ []
  where
    q : ℕ
    q = response_id kind / 256

    r : ℕ
    r = response_id kind % 256

abbrev done : Completion
done = succeeds []

-- The connection; the login's request and its write; the answer to it.
abbrev logs_in : List BotEvent
logs_in =
    ends 0 done
    ∷ ends 0 done
    ∷ ends 1 done
    ∷ ends 0 (succeeds (bytes_for ResponseKind.login_resp))
    ∷ []

-- The match's timer, request and write, and its answer; then the timer of the disconnection and of
-- the next connection.
abbrev comes_back : List BotEvent
comes_back =
    ends 1 done
    ∷ ends 2 done
    ∷ ends 2 done
    ∷ ends 1 (succeeds (bytes_for ResponseKind.match_resp))
    ∷ ends 1 done
    ∷ ends 2 done
    ∷ ends 2 done
    ∷ []

abbrev shape : Option BotClient → Option (Bool × ℕ × ℕ × List Work)
shape none = none
shape (some c) = some (c.connected, c.reconnect_count, c.next_socket, c.pending)

-- Connected again over the second socket, with the request to reconnect posted, one heartbeat to
-- come, and the handlers of both sockets' reads pending.
run_back :
    shape (run sunny (logs_in ++ comes_back) (start sunny (new_bot none)))
    ≡ some (
      true,
      1,
      2,
      timer (pos 5000) heartbeats
          ∷ reading 0
          ∷ posted (record { packet_length = 10; msg_id = 1005; seq = 3; body = 1 ∷ 2 ∷ [] })
          ∷ reading 1
          ∷ [],
    )
unfolding run start encode decode decode_round read_uint32_be
run_back = refl

run-start-Orderly_example :
    Holds (Orderly sunny) (run sunny (logs_in ++ comes_back) (start sunny (new_bot none)))
run-start-Orderly_example = run-start-Orderly sunny none (logs_in ++ comes_back)

-- A std::stoi that knows one number.
abbrev stoi_7 : String → Option ℤ
stoi_7 text = if str_eq text "7" then some (pos 7) else none

parse_args_both :
    parse_args stoi_7
      ("--verbose" ∷ "--port" ∷ "7" ∷ "--input-interval-ms" ∷ "7" ∷ [])
      default_settings
    ≡ runs (record default_settings {
      port = 7;
      options = record default_options { verbose = true; input_interval_ms = pos 7 };
    })
unfolding parse_args
parse_args_both = refl

parse_args_incomplete : parse_args stoi_7 ("--count" ∷ []) default_settings ≡ unknown "--count"
unfolding parse_args
parse_args_incomplete = refl

parse_args_bad : parse_args stoi_7 ("--count" ∷ "x" ∷ []) default_settings ≡ throws
unfolding parse_args
parse_args_bad = refl
