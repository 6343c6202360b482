-- ===== src/Bot/Messages.antt =====
-- bot/bot_client.cpp: what a bot does on the messages of the server.
use cpp_game_room.Base.{
  ℕ, ◌+◌, Bool, true, false, not, ◌&&◌, ◌||◌, Option, none, some, List, [], ◌∷◌, ◌++◌, ◌==◌,
  if◌then◌else◌, String,
}
use cpp_game_room.Base.Int.{pos}
use cpp_game_room.Net.Packet.{Packet}
use cpp_game_room.Net.Codec.{Decoded, packets, invalid_length, out_of_fuel, decode}
use cpp_game_room.Net.Protocol.{parse, ResponseKind, response_id}
use cpp_game_room.Bot.State.{
  BotClient, FlowState, logged_in, matching, in_room, playing, DisconnectPoint, queue, room,
  matches, ready_flow, Environment, tally, percent_hit, schedule_jitter,
}
use cpp_game_room.Bot.Socket.{is_socket, close_socket, do_read}
use cpp_game_room.Bot.Client.{
  schedule_heartbeat, schedule_cancel_match, maybe_schedule_disconnect, schedule_ready_flow,
  start_input_loop,
}

abbrev pub is_playing : FlowState → Bool
is_playing playing = true
is_playing _ = false

module _ {F : Type 0} (env : Environment F) where
  abbrev login_failed : BotClient → BotClient
  login_failed c = tally (λ t. record t { login_failed = t.login_failed + 1 }) c

  -- The branch of OnMessage for a LoginResponse; `none` does not parse.
  unfoldable pub handle_login_response : Option (ℕ × ℕ × String) → BotClient → BotClient
  unfolding tally schedule_heartbeat schedule_jitter
  handle_login_response none c = login_failed c
  handle_login_response (some (code, player_id, token)) c =
      if not (code == 0)
      then login_failed c
      else schedule_jitter env (pos 10) matches (
          schedule_heartbeat env (
            tally (λ t. record t { login_ok = t.login_ok + 1 })
              (record c { player_id = player_id; session_token = token; state = logged_in })))

  abbrev reconnect_failed : BotClient → BotClient
  reconnect_failed c = tally (λ t. record t { reconnect_failed = t.reconnect_failed + 1 }) c

  unfoldable pub handle_reconnect_response : Option (ℕ × ℕ) → BotClient → BotClient
  unfolding tally schedule_ready_flow start_input_loop schedule_jitter
  handle_reconnect_response none c = reconnect_failed c
  handle_reconnect_response (some (code, room_id)) c =
      let c' =
        tally (λ t. record t { reconnect_ok = t.reconnect_ok + 1 })
          (record c { room_id = room_id; state = if room_id == 0 then logged_in else in_room }) in
      if not (code == 0)
      then reconnect_failed c
      else if not (room_id == 0)
      then start_input_loop env (schedule_ready_flow env c')
      else schedule_jitter env env.options.rematch_delay_ms matches c'

  -- HandleMatchResponse with a code 0.
  unfoldable pub match_accepted : BotClient → BotClient
  unfolding tally percent_hit schedule_cancel_match maybe_schedule_disconnect
  match_accepted c =
      let c' =
        tally (λ t. record t { match_ok = t.match_ok + 1 }) (record c { state = matching }) in
      let (c'', hit) = percent_hit env env.options.cancel_match_percent c' in
      if c.cancelled_this_round
      then (maybe_schedule_disconnect env queue c').0
      else if hit
      then schedule_cancel_match env c''
      else (maybe_schedule_disconnect env queue c'').0

  unfoldable pub handle_match_response : Option ℕ → BotClient → BotClient
  unfolding match_accepted tally schedule_jitter
  handle_match_response none c = c
  handle_match_response (some code) c =
      if code == 0
      then match_accepted c
      else if code == 2
      then record c { state = matching }
      else schedule_jitter env env.options.rematch_delay_ms matches
          (record (tally (λ t. record t { match_failed = t.match_failed + 1 }) c) {
            state = logged_in;
          })

  unfoldable pub handle_match_success : Option ℕ → BotClient → BotClient
  unfolding tally maybe_schedule_disconnect schedule_jitter
  handle_match_success none c = c
  handle_match_success (some room_id) c =
      let (c', leaves) = maybe_schedule_disconnect env room (
        tally (λ t. record t { match_success = t.match_success + 1 })
          (record c { room_id = room_id; state = in_room; input_loop_active = false })) in
      if leaves then c' else schedule_jitter env (pos 50) ready_flow c'

  -- The end of HandleRoomState and HandleGameState.
  abbrev enter_game : BotClient → BotClient
  enter_game c = (maybe_schedule_disconnect env DisconnectPoint.playing (start_input_loop env c)).0

  unfoldable pub handle_room_state : Option (ℕ × ℕ) → BotClient → BotClient
  unfolding tally start_input_loop maybe_schedule_disconnect
  handle_room_state none c = c
  handle_room_state (some (room_id, state)) c =
      let c' = record c { room_id = room_id } in
      if not (state == 2)
      then c'
      else enter_game (
          tally (λ t. record t { room_playing = t.room_playing + 1 })
            (record c' { state = playing }))

  unfoldable pub handle_game_state : BotClient → BotClient
  unfolding tally start_input_loop maybe_schedule_disconnect
  handle_game_state c =
      let c' = tally (λ t. record t { game_state = t.game_state + 1 }) c in
      if not (c.room_id == 0) && not (is_playing c.state)
      then enter_game (record c' { state = playing })
      else c'

  unfoldable pub handle_game_over : BotClient → BotClient
  unfolding tally schedule_jitter
  handle_game_over c = schedule_jitter env env.options.rematch_delay_ms matches (
      tally (λ t. record t { game_over = t.game_over + 1 })
        (record c {
          room_id = 0;
          input_loop_active = false;
          state = logged_in;
          cancelled_this_round = false;
          queue_disconnect_this_round = false;
          room_disconnect_this_round = false;
          playing_disconnect_this_round = false;
          reconnect_count = 0;
          input_seq = 0;
        }))

  unfoldable pub on_message : Packet → BotClient → BotClient
  unfolding handle_login_response handle_reconnect_response handle_match_response
      handle_match_success handle_room_state handle_game_state handle_game_over parse
  on_message packet c =
      if packet.msg_id == response_id ResponseKind.login_resp
      then handle_login_response (parse env.login_resp packet) c
      else if packet.msg_id == response_id ResponseKind.reconnect_resp
      then handle_reconnect_response (parse env.reconnect_resp packet) c
      else if packet.msg_id == response_id ResponseKind.match_resp
      then handle_match_response (parse env.match_resp packet) c
      else if packet.msg_id == response_id ResponseKind.match_success_notify
      then handle_match_success (parse env.match_success packet) c
      else if packet.msg_id == response_id ResponseKind.room_state_notify
      then handle_room_state (parse env.room_state packet) c
      else if packet.msg_id == response_id ResponseKind.game_state_notify
      then handle_game_state c
      else if packet.msg_id == response_id ResponseKind.game_over_notify
      then handle_game_over c
      else c

  unfoldable pub on_messages : List Packet → BotClient → BotClient
  unfolding on_message
  on_messages [] c = c
  on_messages (p ∷ ps) c = on_messages ps (on_message p c)

  -- DoRead's handler after Decode; a rejection loses the packets that were decoded before.
  unfoldable pub after_decode : ℕ → Decoded → BotClient → BotClient
  unfolding on_messages close_socket
  after_decode s (packets ps rest) c = do_read s (on_messages ps (record c { read_buffer = rest }))
  after_decode s (invalid_length rest) c = close_socket (record c { read_buffer = rest })
  after_decode s out_of_fuel c = c

  -- The handler of async_read_some: the bytes, or `none` for an error.
  unfoldable pub on_read : ℕ → Option (List ℕ) → BotClient → BotClient
  unfolding after_decode
  on_read s bytes c = if not c.running || not (is_socket s c.socket) then c else elim bytes [
    | none ↦ record c { connected = false }
    | some more ↦ after_decode s (decode (c.read_buffer ++ more)) c
  ]
