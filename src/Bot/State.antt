-- ===== src/Bot/State.antt =====
-- bot/bot_client.h: the options, the counters and the state of a bot. What io_context has still
-- to run is the list of the works that are pending.
use cpp_game_room.Base.{
  ℕ, ◌+◌, ◌%◌, ◌^◌, Bool, true, false, not, Option, none, List, [], ◌∷◌, ◌++◌, if◌then◌else◌,
  String,
}
use cpp_game_room.Base.Int.{ℤ, pos, ◌+ℤ◌, leb_ℤ}
use cpp_game_room.Base.Map.{map_option}
use cpp_game_room.Net.Packet.{Packet}
use cpp_game_room.Net.Protocol.{Protobuf, build}

pub record BotOptions : Type 0 where
  pub cancel_match_percent : ℤ
  pub queue_disconnect_percent : ℤ
  pub room_disconnect_percent : ℤ
  pub playing_disconnect_percent : ℤ
  pub ready_toggle_percent : ℤ
  pub max_reconnects : ℤ
  pub reconnect_delay_ms : ℤ
  pub rematch_delay_ms : ℤ
  pub action_jitter_ms : ℤ
  pub heartbeat_interval_ms : ℤ
  pub input_interval_ms : ℤ
  pub verbose : Bool

abbrev pub default_options : BotOptions
default_options = record {
  cancel_match_percent = pos 10;
  queue_disconnect_percent = pos 5;
  room_disconnect_percent = pos 5;
  playing_disconnect_percent = pos 5;
  ready_toggle_percent = pos 10;
  max_reconnects = pos 2;
  reconnect_delay_ms = pos 500;
  rematch_delay_ms = pos 500;
  action_jitter_ms = pos 800;
  heartbeat_interval_ms = pos 5000;
  input_interval_ms = pos 50;
  verbose = false;
}

-- The bots share one object; these are a bot's increments of it.
pub record BotStats : Type 0 where
  pub connect_ok : ℕ
  pub connect_failed : ℕ
  pub disconnects : ℕ
  pub login_ok : ℕ
  pub login_failed : ℕ
  pub reconnect_ok : ℕ
  pub reconnect_failed : ℕ
  pub match_ok : ℕ
  pub match_failed : ℕ
  pub match_cancel : ℕ
  pub match_success : ℕ
  pub ready : ℕ
  pub unready : ℕ
  pub room_playing : ℕ
  pub input_sent : ℕ
  pub game_state : ℕ
  pub game_over : ℕ

pub data FlowState : Type 0 where
  disconnected connecting logged_in matching in_room playing : FlowState

pub data DisconnectPoint : Type 0 where
  queue room playing : DisconnectPoint

-- The callbacks that are given to ScheduleTimer.
pub data Task : Type 0 where
  connects : Bool → Task
  heartbeats matches cancels rematches ready_flow unreadies readies inputs : Task
  disconnects : DisconnectPoint → Task

-- What is pending: a timer, the handler that SendPacket posts, async_connect, async_read_some and
-- async_write, each with its socket, and the handler that Stop posts.
pub data Work : Type 0 where
  timer : ℤ → Task → Work
  posted : Packet → Work
  opening : ℕ → Bool → Work
  reading : ℕ → Work
  writing : ℕ → List ℕ → Work
  closing : Work

-- The messages of the bot, over the type of floating point numbers.
pub data BotRequest (F : Type 0) : Type 0 where
  login_req : String → String → BotRequest F
  reconnect_req : ℕ → String → BotRequest F
  heartbeat_req : ℕ → BotRequest F
  match_req match_cancel_req : ℕ → BotRequest F
  ready_req : Bool → BotRequest F
  input_req : ℕ → ℕ → F → F → Bool → BotRequest F

abbrev pub request_id : {F : Type 0} → BotRequest F → ℕ
request_id (login_req account token) = 1001
request_id (reconnect_req player_id token) = 1005
request_id (heartbeat_req time) = 1003
request_id (match_req player_id) = 2001
request_id (match_cancel_req player_id) = 2004
request_id (ready_req ready) = 3001
request_id (input_req player_id input_seq x y fire) = 4001

-- Sockets are numbers, given out in order; `draws` counts the questions to the environment.
pub record BotClient : Type 0 where
  pub running : Bool
  pub pending : List Work
  pub socket : Option ℕ
  pub next_socket : ℕ
  pub draws : ℕ
  pub read_buffer : List ℕ
  pub write_queue : List (List ℕ)
  pub state : FlowState
  pub connected : Bool
  pub heartbeat_started : Bool
  pub input_loop_active : Bool
  pub cancelled_this_round : Bool
  pub queue_disconnect_this_round : Bool
  pub room_disconnect_this_round : Bool
  pub playing_disconnect_this_round : Bool
  pub reconnect_count : ℕ
  pub seq : ℕ
  pub player_id : ℕ
  pub room_id : ℕ
  pub input_seq : ℕ
  pub session_token : String
  pub stats : Option BotStats

-- The answers of the resolver, the clock, the random engine (an integer of a range, a float between
-- -1 and 1) and protobuf; the account's text; and the options.
pub record Environment (F : Type 0) : Type 0 where
  pub resolves : ℕ → Bool
  pub now : ℕ → ℕ
  pub dice : ℕ → ℤ → ℤ → ℤ
  pub float : ℕ → F
  pub requests : Protobuf (BotRequest F)
  -- code, player id and token; code and room id; code; room id; room id and state.
  pub login_resp : Protobuf (ℕ × ℕ × String)
  pub reconnect_resp : Protobuf (ℕ × ℕ)
  pub match_resp : Protobuf ℕ
  pub match_success : Protobuf ℕ
  pub room_state : Protobuf (ℕ × ℕ)
  pub account : String
  pub options : BotOptions

-- The constructor of BotClient.
abbrev pub new_bot : Option BotStats → BotClient
new_bot stats = record {
  running = false;
  pending = [];
  socket = none;
  next_socket = 0;
  draws = 0;
  read_buffer = [];
  write_queue = [];
  state = disconnected;
  connected = false;
  heartbeat_started = false;
  input_loop_active = false;
  cancelled_this_round = false;
  queue_disconnect_this_round = false;
  room_disconnect_this_round = false;
  playing_disconnect_this_round = false;
  reconnect_count = 0;
  seq = 0;
  player_id = 0;
  room_id = 0;
  input_seq = 0;
  session_token = "";
  stats = stats;
}

-- std::max
abbrev pub max_ℤ : ℤ → ℤ → ℤ
max_ℤ a b = if leb_ℤ a b then b else a

-- `if (stats_)` and increments.
unfoldable pub tally : (BotStats → BotStats) → BotClient → BotClient
tally f c = record c { stats = map_option f c.stats }

abbrev pub add_work : Work → BotClient → BotClient
add_work w c = record c { pending = c.pending ++ w ∷ [] }

abbrev pub asked : BotClient → BotClient
asked c = record c { draws = c.draws + 1 }

-- ScheduleTimer
unfoldable pub schedule_timer : ℤ → Task → BotClient → BotClient
schedule_timer delay_ms task c =
    if not c.running then c else add_work (timer (max_ℤ (pos 0) delay_ms) task) c

-- SendPacket
unfoldable pub send_packet : Packet → BotClient → BotClient
send_packet packet c = if not c.running then c else add_work (posted packet) c

module _ {F : Type 0} (env : Environment F) where
  -- RandomUtil::Int
  unfoldable pub random_int : ℤ → ℤ → BotClient → BotClient × ℤ
  random_int low high c = (asked c, env.dice c.draws low high)

  unfoldable pub jitter_ms : ℤ → BotClient → BotClient × ℤ
  unfolding random_int
  jitter_ms base_ms c =
      let (c', n) = random_int (pos 0) (max_ℤ (pos 0) env.options.action_jitter_ms) c in
      (c', max_ℤ (pos 0) (base_ms +ℤ n))

  unfoldable pub percent_hit : ℤ → BotClient → BotClient × Bool
  unfolding random_int
  percent_hit percent c =
      if leb_ℤ percent (pos 0)
      then (c, false)
      else if leb_ℤ (pos 100) percent
      then (c, true)
      else let (c', n) = random_int (pos 1) (pos 100) c in (c', leb_ℤ n percent)

  -- `SendPacket(ProtoHelper::Build(id, request, ++seq_))`
  unfoldable pub send_request : BotRequest F → BotClient → BotClient
  unfolding send_packet build
  send_request request c =
      let seq' = (c.seq + 1) % 2 ^ 32 in
      send_packet (build env.requests (request_id request) request seq') (record c { seq = seq' })

  -- A timer after JitterMs, and one after a random time up to JitterMs.
  unfoldable pub schedule_jitter : ℤ → Task → BotClient → BotClient
  unfolding jitter_ms schedule_timer
  schedule_jitter base_ms task c = let (c', d) = jitter_ms base_ms c in schedule_timer d task c'

  unfoldable pub schedule_random : ℤ → ℤ → Task → BotClient → BotClient
  unfolding jitter_ms random_int schedule_timer
  schedule_random low base_ms task c =
      let (c', high) = jitter_ms base_ms c in
      let (c'', d) = random_int low high c' in schedule_timer d task c''
