-- ===== src/Bot/Options.antt =====
-- bot/bot_main.cpp: the settings that main reads from its arguments. std::stoi is a parameter;
-- `none` is its exception, which ends the program.
use text.Mathlib.Text.{◌==◌ as str_eq}
use cpp_game_room.Base.{
  ℕ, ◌%◌, ◌^◌, ◌-◌, true, Option, none, some, List, [], ◌∷◌, if◌then◌else◌, String,
}
use cpp_game_room.Base.Int.{ℤ, pos, negsuc}
use cpp_game_room.Bot.State.{BotOptions, default_options}

-- The variables of main before its loop.
pub record Settings : Type 0 where
  pub host : String
  pub port : ℕ
  pub count : ℤ
  pub duration_seconds : ℤ
  pub options : BotOptions

abbrev pub default_settings : Settings
default_settings = record {
  host = "127.0.0.1";
  port = 9000;
  count = pos 100;
  duration_seconds = pos 0;
  options = default_options;
}

-- What the tests of a round compare the argument with.
pub data Argument : Type 0 where
  help host port count duration cancel_match queue_disconnect room_disconnect playing_disconnect
        ready_toggle max_reconnects reconnect_delay rematch_delay action_jitter heartbeat_interval
        input_interval verbose :
      Argument

abbrev pub find_argument : String → List (String × Argument) → Option Argument
find_argument arg [] = none
find_argument arg ((name, argument) ∷ rest) =
    if str_eq arg name then some argument else find_argument arg rest

abbrev pub known : List (String × Argument)
known =
    ("--help", help)
    ∷ ("--host", host)
    ∷ ("--port", port)
    ∷ ("--count", count)
    ∷ ("--duration", duration)
    ∷ ("--cancel-match-percent", cancel_match)
    ∷ ("--queue-disconnect-percent", queue_disconnect)
    ∷ ("--room-disconnect-percent", room_disconnect)
    ∷ ("--playing-disconnect-percent", playing_disconnect)
    ∷ ("--ready-toggle-percent", ready_toggle)
    ∷ ("--max-reconnects", max_reconnects)
    ∷ ("--reconnect-delay-ms", reconnect_delay)
    ∷ ("--rematch-delay-ms", rematch_delay)
    ∷ ("--action-jitter-ms", action_jitter)
    ∷ ("--heartbeat-interval-ms", heartbeat_interval)
    ∷ ("--input-interval-ms", input_interval)
    ∷ ("--verbose", verbose)
    ∷ []

-- The cast of an int to uint16_t.
abbrev pub cast_uint16 : ℤ → ℕ
cast_uint16 (pos n) = n % 2 ^ 16
cast_uint16 (negsuc n) = 2 ^ 16 - 1 - n % 2 ^ 16

abbrev with_options : (BotOptions → BotOptions) → Settings → Settings
with_options f s = record s { options = f s.options }

-- The assignments of a number.
abbrev pub set_number : Argument → ℤ → Settings → Settings
set_number port n s = record s { port = cast_uint16 n }
set_number count n s = record s { count = n }
set_number duration n s = record s { duration_seconds = n }
set_number cancel_match n s = with_options (λ o. record o { cancel_match_percent = n }) s
set_number queue_disconnect n s = with_options (λ o. record o { queue_disconnect_percent = n }) s
set_number room_disconnect n s = with_options (λ o. record o { room_disconnect_percent = n }) s
set_number playing_disconnect n s =
    with_options (λ o. record o { playing_disconnect_percent = n }) s
set_number ready_toggle n s = with_options (λ o. record o { ready_toggle_percent = n }) s
set_number max_reconnects n s = with_options (λ o. record o { max_reconnects = n }) s
set_number reconnect_delay n s = with_options (λ o. record o { reconnect_delay_ms = n }) s
set_number rematch_delay n s = with_options (λ o. record o { rematch_delay_ms = n }) s
set_number action_jitter n s = with_options (λ o. record o { action_jitter_ms = n }) s
set_number heartbeat_interval n s = with_options (λ o. record o { heartbeat_interval_ms = n }) s
set_number input_interval n s = with_options (λ o. record o { input_interval_ms = n }) s
set_number _ n s = s

-- The bots run, main returns 0 or 1, or std::stoi throws.
pub data Started : Type 0 where
  runs : Settings → Started
  usage : Started
  unknown : String → Started
  throws : Started

-- The assignment of a value; `none` is the exception.
abbrev pub set_value : (String → Option ℤ) → Argument → String → Settings → Option Settings
set_value stoi host v s = some (record s { host = v })
set_value stoi argument v s = elim (stoi v) [
  | none ↦ none
  | some n ↦ some (set_number argument n s)
]

-- The loop over the arguments.
unfoldable pub parse_args : (String → Option ℤ) → List String → Settings → Started
parse_args stoi [] s = runs s
parse_args stoi (arg ∷ []) s = elim (find_argument arg known) [
  | some help ↦ usage
  | some verbose ↦ runs (with_options (λ o. record o { verbose = true }) s)
  | _ ↦ unknown arg
]
parse_args stoi (arg ∷ v ∷ rest) s = elim (find_argument arg known) [
  | none ↦ unknown arg
  | some help ↦ usage
  | some verbose ↦ parse_args stoi (v ∷ rest) (with_options (λ o. record o { verbose = true }) s)
  | some argument ↦ elim (set_value stoi argument v s) [
    | none ↦ throws
    | some s' ↦ parse_args stoi rest s'
  ]
]
