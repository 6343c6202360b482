-- ===== src/Bot/Handling.antt =====
-- What the server's messages do to a bot's pace and to the works of its connection.
use cpp_game_room.Base.{
  ℕ, ◌+◌, ◌≡◌, refl, sym, ap, ◌∙◌, subst, true, false, not, ◌&&◌, ◌||◌, Option, none, some, List,
  [], ◌∷◌, ◌==◌, String, arith, if◌then◌else◌, if_intro,
}
use cpp_game_room.Base.Int.{ℤ, pos, leb_ℤ}
use cpp_game_room.Net.Packet.{Packet}
use cpp_game_room.Net.Protocol.{parse, ResponseKind, response_id}
use cpp_game_room.Bot.State.{
  BotClient, logged_in, matching, in_room, playing, DisconnectPoint, queue, room, heartbeats,
  matches, ready_flow, timer, Environment, tally, max_ℤ, schedule_timer, percent_hit,
}
use cpp_game_room.Bot.Client.{
  schedule_heartbeat, maybe_schedule_disconnect, schedule_ready_flow, start_input_loop,
}
use cpp_game_room.Bot.Messages.{
  is_playing, handle_login_response, handle_reconnect_response, match_accepted,
  handle_match_response, handle_match_success, handle_room_state, handle_game_state,
  handle_game_over, on_message, on_messages,
}
use cpp_game_room.Bot.Link.{
  is_beat, count-add, pace, link-percent_hit, link-schedule_jitter, wire-schedule_timer,
}
use cpp_game_room.Bot.Quiet.{
  link-schedule_cancel_match, link-maybe_schedule_disconnect, link-schedule_ready_flow,
  link-start_input_loop,
}
use cpp_game_room.Bot.Paced.{Paced, Handled, calm, next, rebase}

module _ {F : Type 0} (env : Environment F) where
  abbrev Keeps : BotClient → BotClient → Type 0
  Keeps c c' = Handled env.options.max_reconnects c c'

  first_beat :
      (max delay : ℤ) (c : BotClient)
      → c.heartbeat_started ≡ false
      → Paced max (pace c)
      → Paced max (pace (schedule_timer delay heartbeats (record c { heartbeat_started = true })))
  unfolding schedule_timer
  first_beat max delay c off p =
      let few = p.few_reconnects in
      let beats = p.one_beat in
      if_intro (λ x. Paced max (pace x)) (not c.running)
        (λ _. record { one_beat = ground arith; few_reconnects = few })
        (λ _.
          let e = count-add is_beat c.pending (timer (max_ℤ (pos 0) delay) heartbeats) in
          record { one_beat = ground arith; few_reconnects = few })

  schedule_heartbeat-Handled : (c : BotClient) → Keeps c (schedule_heartbeat env c)
  unfolding schedule_heartbeat
  schedule_heartbeat-Handled c =
      if_intro (Keeps c) (c.heartbeat_started || leb_ℤ env.options.heartbeat_interval_ms (pos 0))
        (λ _. calm refl)
        (λ off. record {
          same_wire =
              wire-schedule_timer env.options.heartbeat_interval_ms heartbeats refl
                (record c { heartbeat_started = true });
          stays_paced =
              first_beat env.options.max_reconnects env.options.heartbeat_interval_ms c
                (ground arith);
        })

  handle_login_response-Handled :
      (o : Option (ℕ × ℕ × String)) (c : BotClient) → Keeps c (handle_login_response env o c)
  unfolding handle_login_response tally
  handle_login_response-Handled none c = calm refl
  handle_login_response-Handled (some (code, player_id, token)) c =
      let c' =
        tally (λ t. record t { login_ok = t.login_ok + 1 })
          (record c { player_id = player_id; session_token = token; state = logged_in }) in
      if_intro (Keeps c) (not (code == 0)) (λ _. calm refl)
        (λ _. rebase refl (
          next (schedule_heartbeat-Handled c') (
            calm (
              link-schedule_jitter env (pos 10) matches (refl, refl) (schedule_heartbeat env c')))))

  handle_reconnect_response-Handled :
      (o : Option (ℕ × ℕ)) (c : BotClient) → Keeps c (handle_reconnect_response env o c)
  unfolding handle_reconnect_response tally
  handle_reconnect_response-Handled none c = calm refl
  handle_reconnect_response-Handled (some (code, room_id)) c =
      let c' =
        tally (λ t. record t { reconnect_ok = t.reconnect_ok + 1 })
          (record c { room_id = room_id; state = if room_id == 0 then logged_in else in_room }) in
      if_intro (Keeps c) (not (code == 0)) (λ _. calm refl)
        (λ _.
          if_intro (Keeps c) (not (room_id == 0))
            (λ _. calm (
              link-start_input_loop env (schedule_ready_flow env c')
              ∙ link-schedule_ready_flow env c'))
            (λ _.
              calm (link-schedule_jitter env env.options.rematch_delay_ms matches (refl, refl) c')))

  match_accepted-Handled : (c : BotClient) → Keeps c (match_accepted env c)
  unfolding match_accepted tally
  match_accepted-Handled c =
      let c' =
        tally (λ t. record t { match_ok = t.match_ok + 1 }) (record c { state = matching }) in
      let (c'', hit) = percent_hit env env.options.cancel_match_percent c' in
      let e = link-percent_hit env env.options.cancel_match_percent c' in
      if_intro (Keeps c) c.cancelled_this_round
        (λ _. calm (link-maybe_schedule_disconnect env queue c'))
        (λ _.
          if_intro (Keeps c) hit (λ _. calm (link-schedule_cancel_match env c'' ∙ e))
            (λ _. calm (link-maybe_schedule_disconnect env queue c'' ∙ e)))

  handle_match_response-Handled :
      (o : Option ℕ) (c : BotClient) → Keeps c (handle_match_response env o c)
  unfolding handle_match_response tally
  handle_match_response-Handled none c = calm refl
  handle_match_response-Handled (some code) c =
      if_intro (Keeps c) (code == 0) (λ _. match_accepted-Handled c)
        (λ _.
          if_intro (Keeps c) (code == 2) (λ _. calm refl)
            (λ _. calm (
              link-schedule_jitter env env.options.rematch_delay_ms matches (refl, refl)
                (record (tally (λ t. record t { match_failed = t.match_failed + 1 }) c) {
                  state = logged_in;
                }))))

  handle_match_success-Handled :
      (o : Option ℕ) (c : BotClient) → Keeps c (handle_match_success env o c)
  unfolding handle_match_success tally
  handle_match_success-Handled none c = calm refl
  handle_match_success-Handled (some room_id) c =
      let before =
        tally (λ t. record t { match_success = t.match_success + 1 })
          (record c { room_id = room_id; state = in_room; input_loop_active = false }) in
      let (c', leaves) = maybe_schedule_disconnect env room before in
      let e = link-maybe_schedule_disconnect env room before in
      if_intro (Keeps c) leaves (λ _. calm e)
        (λ _. calm (link-schedule_jitter env (pos 50) ready_flow (refl, refl) c' ∙ e))

  handle_room_state-Handled :
      (o : Option (ℕ × ℕ)) (c : BotClient) → Keeps c (handle_room_state env o c)
  unfolding handle_room_state tally
  handle_room_state-Handled none c = calm refl
  handle_room_state-Handled (some (room_id, state)) c =
      let c' =
        tally (λ t. record t { room_playing = t.room_playing + 1 })
          (record c { room_id = room_id; state = playing }) in
      if_intro (Keeps c) (not (state == 2)) (λ _. calm refl)
        (λ _. calm (
          link-maybe_schedule_disconnect env DisconnectPoint.playing (start_input_loop env c')
          ∙ link-start_input_loop env c'))

  handle_game_state-Handled : (c : BotClient) → Keeps c (handle_game_state env c)
  unfolding handle_game_state tally
  handle_game_state-Handled c =
      let c' =
        tally (λ t. record t { game_state = t.game_state + 1 }) (record c { state = playing }) in
      if_intro (Keeps c) (not (c.room_id == 0) && not (is_playing c.state))
        (λ _. calm (
          link-maybe_schedule_disconnect env DisconnectPoint.playing (start_input_loop env c')
          ∙ link-start_input_loop env c'))
        (λ _. calm refl)

  -- The reconnections of the next round count from 0.
  handle_game_over-Handled : (c : BotClient) → Keeps c (handle_game_over env c)
  unfolding handle_game_over tally
  handle_game_over-Handled c =
      let c' =
        tally (λ t. record t { game_over = t.game_over + 1 })
          (record c {
            room_id = 0;
            input_loop_active = false;
            state = logged_in;
            cancelled_this_round = false;
            queue_disconnect_this_round = false;
            room_disconnect_this_round = false;
            playing_disconnect_this_round = false;
            reconnect_count = 0;
            input_seq = 0;
          }) in
      let e = link-schedule_jitter env env.options.rematch_delay_ms matches (refl, refl) c' in
      record {
        same_wire = ap (λ l. l.0) e;
        stays_paced = λ p.
            subst (λ l. Paced env.options.max_reconnects l.1) (sym e)
              (record { one_beat = p.one_beat; few_reconnects = omega arith });
      }

  -- OnMessage on the notifications.
  on_notify-Handled :
      (p : Packet) (c : BotClient)
      → Keeps c (
          if p.msg_id == response_id ResponseKind.match_success_notify
          then handle_match_success env (parse env.match_success p) c
          else if p.msg_id == response_id ResponseKind.room_state_notify
          then handle_room_state env (parse env.room_state p) c
          else if p.msg_id == response_id ResponseKind.game_state_notify
          then handle_game_state env c
          else if p.msg_id == response_id ResponseKind.game_over_notify
          then handle_game_over env c
          else c)
  on_notify-Handled p c =
      if_intro (Keeps c) (p.msg_id == response_id ResponseKind.match_success_notify)
        (λ _. handle_match_success-Handled (parse env.match_success p) c)
        (λ _.
          if_intro (Keeps c) (p.msg_id == response_id ResponseKind.room_state_notify)
            (λ _. handle_room_state-Handled (parse env.room_state p) c)
            (λ _.
              if_intro (Keeps c) (p.msg_id == response_id ResponseKind.game_state_notify)
                (λ _. handle_game_state-Handled c)
                (λ _.
                  if_intro (Keeps c) (p.msg_id == response_id ResponseKind.game_over_notify)
                    (λ _. handle_game_over-Handled c) (λ _. calm refl))))

  pub on_message-Handled : (p : Packet) (c : BotClient) → Keeps c (on_message env p c)
  unfolding on_message parse
  on_message-Handled p c =
      if_intro (Keeps c) (p.msg_id == response_id ResponseKind.login_resp)
        (λ _. handle_login_response-Handled (parse env.login_resp p) c)
        (λ _.
          if_intro (Keeps c) (p.msg_id == response_id ResponseKind.reconnect_resp)
            (λ _. handle_reconnect_response-Handled (parse env.reconnect_resp p) c)
            (λ _.
              if_intro (Keeps c) (p.msg_id == response_id ResponseKind.match_resp)
                (λ _. handle_match_response-Handled (parse env.match_resp p) c)
                (λ _. on_notify-Handled p c)))

  pub on_messages-Handled : (ps : List Packet) (c : BotClient) → Keeps c (on_messages env ps c)
  unfolding on_messages
  on_messages-Handled [] c = calm refl
  on_messages-Handled (p ∷ ps) c =
      next (on_message-Handled p c) (on_messages-Handled ps (on_message env p c))
