-- ===== src/Bot/Timers.antt =====
-- The callbacks of a bot's timers keep its works and its pace in order.
use cpp_game_room.Base.{
  ◌+◌, ◌≡◌, refl, sym, ap, ◌∙◌, subst, Bool, true, not, ◌&&◌, ◌||◌, ◌==◌, arith, if_intro,
}
use cpp_game_room.Base.Int.{ℤ, pos, leb_ℤ}
use cpp_game_room.Bot.State.{
  BotClient, DisconnectPoint, Task, connects, heartbeats, matches, cancels, rematches, ready_flow,
  unreadies, readies, inputs, disconnects, Work, timer, opening, Environment, tally, max_ℤ,
  schedule_timer, schedule_jitter, asked, jitter_ms, random_int, heartbeat_req,
}
use cpp_game_room.Bot.Socket.{connect, has_session, schedule_reconnect, close_socket}
use cpp_game_room.Bot.Client.{heartbeat, simulate_disconnect, schedule_ready_flow, unready}
use cpp_game_room.Bot.Link.{
  flag, is_beat, count-add, Wire, wire, pace, link, link-send_request, link-schedule_random,
  wire-schedule_timer,
}
use cpp_game_room.Bot.Wired.{Wired, with_work, lose, unplugged}
use cpp_game_room.Bot.Moves.{try_later, dial}
use cpp_game_room.Bot.Paced.{Paced}
use cpp_game_room.Bot.Steps.{run_task}
use cpp_game_room.Bot.Quiet.{
  link-match_up, link-cancel_match, link-rematch, link-schedule_ready_flow, link-unready,
  link-ready, link-send_input,
}
use cpp_game_room.Bot.Orderly.{
  Orderly, Taken, with_beat, Orderly-link, less_beats, add_work-Orderly, schedule_connect-Orderly,
  lose_timer-Orderly,
}

module _ {F : Type 0} (env : Environment F) where
  pub connect-Orderly :
      (d : ℤ) (r r' : Bool) (c : BotClient)
      → Taken env (timer d (connects r)) c
      → Orderly env (connect env r' c)
  unfolding connect tally
  connect-Orderly d r r' c h =
      let p = less_beats env (timer d (connects r)) (pace c) h.paced in
      if_intro (Orderly env) (not c.running) (λ _. lose_timer-Orderly env d (connects r) c h)
        (λ on.
          if_intro (Orderly env) (not (env.resolves c.draws))
            (λ _.
              schedule_connect-Orderly env env.options.reconnect_delay_ms r' _ (λ off. ground arith)
                (try_later d (max_ℤ (pos 0) env.options.reconnect_delay_ms) r r' (wire c) h.wired)
                p)
            (λ _.
              add_work-Orderly env (opening c.next_socket r') _ refl (dial d r r' (wire c) h.wired)
                p))

  schedule_reconnect-Orderly :
      (c : BotClient)
      → Orderly env c
      → ((d : ℤ) → Wired (with_work (timer d (connects true)) (wire c)))
      → Orderly env (schedule_reconnect env c)
  unfolding schedule_reconnect schedule_jitter jitter_ms random_int
  schedule_reconnect-Orderly c h k =
      if_intro (Orderly env) (not c.running || not (has_session env c)) (λ _. h)
        (λ _.
          schedule_connect-Orderly env (jitter_ms env env.options.reconnect_delay_ms c).1 true
            (asked c) (λ _. Orderly-link env c (asked c) refl h) (k _) h.paced)

  -- A bot that was connected and is not any more may try again.
  redial :
      (d : ℤ) (r : Bool) (w : Wire)
      → w.connected ≡ true
      → Wired w
      → Wired (with_work (timer d (connects r)) (unplugged w))
  redial d r w linked h = record {
    one_try = let g = h.one_try in let f = ap flag linked in omega arith;
    one_read = λ s. let g = h.one_read s in omega arith;
    one_write = λ s. let g = h.one_write s in omega arith;
    listens = λ on off s e. ground arith;
    busy = λ on s e. ground arith;
    fresh = λ s l. let g = h.fresh s l in (omega arith, omega arith);
    below = λ s e. ground arith;
  }

  simulate_disconnect-Orderly :
      (point : DisconnectPoint) (c : BotClient)
      → Orderly env c
      → Orderly env (simulate_disconnect env point c)
  unfolding simulate_disconnect close_socket tally
  simulate_disconnect-Orderly point c h =
      let p = h.paced in
      let few = p.few_reconnects in
      if_intro (Orderly env)
        (not c.running
          || not c.connected
          || leb_ℤ env.options.max_reconnects (pos c.reconnect_count))
        (λ _. h)
        (λ go.
          let k = λ (d : ℤ). redial d true (wire c) (ground arith) h.wired in
          let c' = close_socket (
            tally (λ t. record t { disconnects = t.disconnects + 1 })
              (record c { reconnect_count = c.reconnect_count + 1 })) in
          schedule_reconnect-Orderly c'
            (record {
              wired =
                  lose (timer (pos 0) (connects true)) (unplugged (wire c)) (λ _ s _. (refl, refl))
                    (k (pos 0));
              paced = record { one_beat = p.one_beat; few_reconnects = ground arith };
            })
            k)

  -- The timer of the next heartbeat takes the place of the last one's.
  next_beat :
      (d delay : ℤ) (c : BotClient)
      → Taken env (timer d heartbeats) c
      → Orderly env (schedule_timer delay heartbeats c)
  unfolding schedule_timer
  next_beat d delay c h =
      let lost = lose_timer-Orderly env d heartbeats c h in
      let e = count-add is_beat c.pending (timer (max_ℤ (pos 0) delay) heartbeats) in
      let b = h.paced.one_beat in
      record {
        wired = subst Wired (sym (wire-schedule_timer delay heartbeats refl c)) lost.wired;
        paced =
            if_intro (λ x. Paced env.options.max_reconnects (pace x)) (not c.running)
              (λ _. lost.paced)
              (λ _. record { one_beat = omega arith; few_reconnects = h.paced.few_reconnects });
      }

  Taken-link : (x : Work) (c c' : BotClient) → link c' ≡ link c → Taken env x c → Taken env x c'
  Taken-link x c c' e h = record {
    wired = subst (λ l. Wired (with_work x l.0)) (sym e) h.wired;
    paced = subst (λ l. Paced env.options.max_reconnects (with_beat x l.1)) (sym e) h.paced;
  }

  heartbeat-Orderly :
      (d : ℤ) (c : BotClient) → Taken env (timer d heartbeats) c → Orderly env (heartbeat env c)
  unfolding heartbeat
  heartbeat-Orderly d c h =
      if_intro (Orderly env) (not c.running) (λ _. lose_timer-Orderly env d heartbeats c h)
        (λ _. next_beat d env.options.heartbeat_interval_ms _ (
          Taken-link _ c _
            (if_intro (λ x. link x ≡ link c) c.connected
              (λ _. link-send_request env (heartbeat_req (env.now c.draws)) (asked c)) (λ _. refl))
            h))

  after_ready_flow : (c : BotClient) → Orderly env c → Orderly env (run_task env ready_flow c)
  unfolding run_task
  after_ready_flow c h =
      if_intro (Orderly env) (c.connected && not (c.room_id == 0))
        (λ _. Orderly-link env c (schedule_ready_flow env c) (link-schedule_ready_flow env c) h)
        (λ _. h)

  -- The callbacks of the timers.
  pub run_task-Orderly :
      (d : ℤ) (task : Task) (c : BotClient)
      → Taken env (timer d task) c
      → Orderly env (run_task env task c)
  unfolding run_task
  run_task-Orderly d (connects r) c h = connect-Orderly d r r c h
  run_task-Orderly d heartbeats c h = heartbeat-Orderly d c h
  run_task-Orderly d matches c h =
      Orderly-link env c (run_task env matches c) (link-match_up env c)
        (lose_timer-Orderly env d _ c h)
  run_task-Orderly d cancels c h =
      Orderly-link env c (run_task env cancels c) (link-cancel_match env c)
        (lose_timer-Orderly env d _ c h)
  run_task-Orderly d rematches c h =
      Orderly-link env c (run_task env rematches c) (link-rematch env c)
        (lose_timer-Orderly env d _ c h)
  run_task-Orderly d ready_flow c h = after_ready_flow c (lose_timer-Orderly env d ready_flow c h)
  run_task-Orderly d unreadies c h =
      Orderly-link env c (run_task env unreadies c)
        (link-schedule_random env (pos 100) (pos 600) readies (refl, refl) (unready env c)
          ∙ link-unready env c)
        (lose_timer-Orderly env d unreadies c h)
  run_task-Orderly d readies c h =
      Orderly-link env c (run_task env readies c) (link-ready env c)
        (lose_timer-Orderly env d _ c h)
  run_task-Orderly d inputs c h =
      Orderly-link env c (run_task env inputs c) (link-send_input env c)
        (lose_timer-Orderly env d _ c h)
  run_task-Orderly d (disconnects point) c h =
      simulate_disconnect-Orderly point c (lose_timer-Orderly env d (disconnects point) c h)
