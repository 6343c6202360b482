-- ===== src/Bot/Client.antt =====
-- bot/bot_client.cpp: what a bot asks of the server, and when.
use cpp_game_room.Base.{◌+◌, ◌%◌, ◌^◌, Bool, true, false, not, ◌&&◌, ◌||◌, ◌==◌, if◌then◌else◌}
use cpp_game_room.Base.Int.{ℤ, pos, leb_ℤ, eqb_ℤ}
use cpp_game_room.Bot.State.{
  BotClient, BotOptions, FlowState, logged_in, matching, DisconnectPoint, queue, room, playing,
  heartbeats, cancels, rematches, unreadies, inputs, disconnects, heartbeat_req, match_req,
  match_cancel_req, ready_req, input_req, Environment, tally, asked, schedule_timer, random_int,
  percent_hit, send_request, schedule_jitter, schedule_random,
}
use cpp_game_room.Bot.Socket.{close_socket, schedule_reconnect}

abbrev pub is_logged_in : FlowState → Bool
is_logged_in logged_in = true
is_logged_in _ = false

abbrev pub is_matching : FlowState → Bool
is_matching matching = true
is_matching _ = false

-- The switch of MaybeScheduleDisconnect.
abbrev pub percent_of : DisconnectPoint → BotOptions → ℤ
percent_of queue o = o.queue_disconnect_percent
percent_of room o = o.room_disconnect_percent
percent_of playing o = o.playing_disconnect_percent

abbrev pub round_flag : DisconnectPoint → BotClient → Bool
round_flag queue c = c.queue_disconnect_this_round
round_flag room c = c.room_disconnect_this_round
round_flag playing c = c.playing_disconnect_this_round

abbrev pub set_round_flag : DisconnectPoint → BotClient → BotClient
set_round_flag queue c = record c { queue_disconnect_this_round = true }
set_round_flag room c = record c { room_disconnect_this_round = true }
set_round_flag playing c = record c { playing_disconnect_this_round = true }

module _ {F : Type 0} (env : Environment F) where
  unfoldable pub schedule_heartbeat : BotClient → BotClient
  unfolding schedule_timer
  schedule_heartbeat c =
      if c.heartbeat_started || leb_ℤ env.options.heartbeat_interval_ms (pos 0)
      then c
      else schedule_timer env.options.heartbeat_interval_ms heartbeats
          (record c { heartbeat_started = true })

  unfoldable pub heartbeat : BotClient → BotClient
  unfolding schedule_timer send_request
  heartbeat c =
      let c' =
        if c.connected then send_request env (heartbeat_req (env.now c.draws)) (asked c) else c in
      if not c.running then c else schedule_timer env.options.heartbeat_interval_ms heartbeats c'

  -- BotClient::Match
  unfoldable pub match_up : BotClient → BotClient
  unfolding send_request
  match_up c =
      if not c.connected || c.player_id == 0 || not (c.room_id == 0)
      then c
      else send_request env (match_req c.player_id) (record c { state = matching })

  unfoldable pub cancel_match : BotClient → BotClient
  unfolding send_request tally schedule_jitter
  cancel_match c =
      let c' = send_request env (match_cancel_req c.player_id) c in
      if not c.connected || not (is_matching c.state) || not (c.room_id == 0)
      then c
      else schedule_jitter env env.options.rematch_delay_ms rematches (
          tally (λ t. record t { match_cancel = t.match_cancel + 1 })
            (record c' { cancelled_this_round = true; state = logged_in }))

  -- The callback that CancelMatch schedules.
  unfoldable pub rematch : BotClient → BotClient
  unfolding match_up
  rematch c = if is_logged_in c.state && c.room_id == 0 then match_up c else c

  unfoldable pub schedule_cancel_match : BotClient → BotClient
  unfolding schedule_random
  schedule_cancel_match c = schedule_random env (pos 50) (pos 250) cancels c

  unfoldable pub maybe_schedule_disconnect : DisconnectPoint → BotClient → BotClient × Bool
  unfolding percent_hit schedule_random
  maybe_schedule_disconnect point c =
      let (c', hit) = percent_hit env (percent_of point env.options) c in
      if leb_ℤ env.options.max_reconnects (pos c.reconnect_count) || round_flag point c
      then (c, false)
      else if not hit
      then (c', false)
      else (
        schedule_random env (pos 50) (pos 500) (disconnects point) (set_round_flag point c'),
        true,
      )

  -- SimulateDisconnect; its trace goes to the standard output.
  unfoldable pub simulate_disconnect : DisconnectPoint → BotClient → BotClient
  unfolding tally close_socket schedule_reconnect
  simulate_disconnect point c =
      if not c.running
        || not c.connected
        || leb_ℤ env.options.max_reconnects (pos c.reconnect_count)
      then c
      else schedule_reconnect env (
          close_socket (
            tally (λ t. record t { disconnects = t.disconnects + 1 })
              (record c { reconnect_count = c.reconnect_count + 1 })))

  -- BotClient::Ready and Unready
  unfoldable pub ready : BotClient → BotClient
  unfolding send_request tally
  ready c =
      if not c.connected || c.room_id == 0
      then c
      else tally (λ t. record t { ready = t.ready + 1 }) (send_request env (ready_req true) c)

  unfoldable pub unready : BotClient → BotClient
  unfolding send_request tally
  unready c =
      if not c.connected || c.room_id == 0
      then c
      else tally (λ t. record t { unready = t.unready + 1 }) (send_request env (ready_req false) c)

  unfoldable pub schedule_ready_flow : BotClient → BotClient
  unfolding percent_hit ready schedule_random
  schedule_ready_flow c =
      let (c', hit) = percent_hit env env.options.ready_toggle_percent c in
      if c.room_id == 0
      then c
      else if hit
      then schedule_random env (pos 100) (pos 600) unreadies (ready c')
      else ready c'

  unfoldable pub send_input : BotClient → BotClient
  unfolding send_request random_int tally schedule_timer
  send_input c =
      let input_seq' = (c.input_seq + 1) % 2 ^ 64 in
      let x = env.float c.draws in
      let y = env.float (c.draws + 1) in
      let (c', n) =
        random_int env (pos 0) (pos 3) (record c { input_seq = input_seq'; draws = c.draws + 2 }) in
      let fire = eqb_ℤ n (pos 0) in
      if not c.running || not c.connected || c.room_id == 0 || not c.input_loop_active
      then c
      else schedule_timer env.options.input_interval_ms inputs (
          tally (λ t. record t { input_sent = t.input_sent + 1 })
            (send_request env (input_req c.player_id input_seq' x y fire) c'))

  unfoldable pub start_input_loop : BotClient → BotClient
  unfolding send_input
  start_input_loop c =
      if not c.running || c.room_id == 0 || c.input_loop_active
      then c
      else send_input (record c { input_loop_active = true })
