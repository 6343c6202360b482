-- ===== src/Bot/Quiet.antt =====
-- The calls of a bot that ask the server for something, or plan it, and touch nothing of its link.
use cpp_game_room.Base.{
  ◌+◌, ◌%◌, ◌^◌, ◌≡◌, refl, ◌∙◌, Bool, true, false, not, ◌&&◌, ◌||◌, ◌==◌, if_intro,
}
use cpp_game_room.Base.Int.{pos, leb_ℤ, eqb_ℤ}
use cpp_game_room.Bot.State.{
  BotClient, matching, DisconnectPoint, queue, room, playing, cancels, rematches, unreadies, inputs,
  disconnects, match_req, match_cancel_req, ready_req, input_req, Environment, tally, random_int,
  percent_hit,
}
use cpp_game_room.Bot.Client.{
  is_logged_in, is_matching, match_up, cancel_match, rematch, schedule_cancel_match,
  maybe_schedule_disconnect, percent_of, round_flag, set_round_flag, ready, unready,
  schedule_ready_flow, send_input, start_input_loop,
}
use cpp_game_room.Bot.Link.{
  link, link-send_request, link-schedule_timer, link-percent_hit, link-schedule_jitter,
  link-schedule_random,
}

module _ {F : Type 0} (env : Environment F) where
  pub link-match_up : (c : BotClient) → link (match_up env c) ≡ link c
  unfolding match_up
  link-match_up c =
      if_intro (λ x. link x ≡ link c) (not c.connected || c.player_id == 0 || not (c.room_id == 0))
        (λ _. refl)
        (λ _. link-send_request env (match_req c.player_id) (record c { state = matching }))

  pub link-rematch : (c : BotClient) → link (rematch env c) ≡ link c
  unfolding rematch
  link-rematch c =
      if_intro (λ x. link x ≡ link c) (is_logged_in c.state && c.room_id == 0)
        (λ _. link-match_up c) (λ _. refl)

  pub link-cancel_match : (c : BotClient) → link (cancel_match env c) ≡ link c
  unfolding cancel_match tally
  link-cancel_match c =
      if_intro (λ x. link x ≡ link c)
        (not c.connected || not (is_matching c.state) || not (c.room_id == 0)) (λ _. refl)
        (λ _.
          link-schedule_jitter env env.options.rematch_delay_ms rematches (refl, refl) _
          ∙ link-send_request env (match_cancel_req c.player_id) c)

  pub link-schedule_cancel_match : (c : BotClient) → link (schedule_cancel_match env c) ≡ link c
  unfolding schedule_cancel_match
  link-schedule_cancel_match c = link-schedule_random env (pos 50) (pos 250) cancels (refl, refl) c

  link-set_round_flag :
      (point : DisconnectPoint) (c : BotClient) → link (set_round_flag point c) ≡ link c
  link-set_round_flag queue c = refl
  link-set_round_flag room c = refl
  link-set_round_flag playing c = refl

  -- A disconnection is only planned.
  pub link-maybe_schedule_disconnect :
      (point : DisconnectPoint) (c : BotClient)
      → link (maybe_schedule_disconnect env point c).0 ≡ link c
  unfolding maybe_schedule_disconnect
  link-maybe_schedule_disconnect point c =
      let (c', hit) = percent_hit env (percent_of point env.options) c in
      let h = link-percent_hit env (percent_of point env.options) c in
      if_intro (λ (x : BotClient × Bool). link x.0 ≡ link c)
        (leb_ℤ env.options.max_reconnects (pos c.reconnect_count) || round_flag point c) (λ _. refl)
        (λ _.
          if_intro (λ (x : BotClient × Bool). link x.0 ≡ link c) (not hit) (λ _. h)
            (λ _.
              link-schedule_random env (pos 50) (pos 500) (disconnects point) (refl, refl) _
              ∙ link-set_round_flag point c'
              ∙ h))

  pub link-ready : (c : BotClient) → link (ready env c) ≡ link c
  unfolding ready tally
  link-ready c =
      if_intro (λ x. link x ≡ link c) (not c.connected || c.room_id == 0) (λ _. refl)
        (λ _. link-send_request env (ready_req true) c)

  pub link-unready : (c : BotClient) → link (unready env c) ≡ link c
  unfolding unready tally
  link-unready c =
      if_intro (λ x. link x ≡ link c) (not c.connected || c.room_id == 0) (λ _. refl)
        (λ _. link-send_request env (ready_req false) c)

  pub link-schedule_ready_flow : (c : BotClient) → link (schedule_ready_flow env c) ≡ link c
  unfolding schedule_ready_flow
  link-schedule_ready_flow c =
      let (c', hit) = percent_hit env env.options.ready_toggle_percent c in
      let h = link-ready c' ∙ link-percent_hit env env.options.ready_toggle_percent c in
      if_intro (λ x. link x ≡ link c) (c.room_id == 0) (λ _. refl)
        (λ _.
          if_intro (λ x. link x ≡ link c) hit
            (λ _. link-schedule_random env (pos 100) (pos 600) unreadies (refl, refl) _ ∙ h)
            (λ _. h))

  pub link-send_input : (c : BotClient) → link (send_input env c) ≡ link c
  unfolding send_input random_int tally
  link-send_input c =
      let input_seq' = (c.input_seq + 1) % 2 ^ 64 in
      let (c', n) =
        random_int env (pos 0) (pos 3) (record c { input_seq = input_seq'; draws = c.draws + 2 }) in
      let request =
        input_req c.player_id input_seq' (env.float c.draws) (env.float (c.draws + 1))
          (eqb_ℤ n (pos 0)) in
      if_intro (λ x. link x ≡ link c)
        (not c.running || not c.connected || c.room_id == 0 || not c.input_loop_active) (λ _. refl)
        (λ _.
          link-schedule_timer env.options.input_interval_ms inputs (refl, refl) _
          ∙ link-send_request env request c')

  pub link-start_input_loop : (c : BotClient) → link (start_input_loop env c) ≡ link c
  unfolding start_input_loop
  link-start_input_loop c =
      if_intro (λ x. link x ≡ link c) (not c.running || c.room_id == 0 || c.input_loop_active)
        (λ _. refl) (λ _. link-send_input (record c { input_loop_active = true }))
