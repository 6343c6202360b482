-- ===== src/Bot/Runs.antt =====
-- Every run of a bot keeps its works and its pace in order.
use cpp_game_room.Base.{
  ℕ, ◌≡◌, refl, sym, subst, Bool, true, false, not, ◌&&◌, ◌||◌, Option, none, some, List, [], ◌∷◌,
  ◌++◌, arith, if◌then◌else◌, if_intro,
}
use cpp_game_room.Base.Int.{pos}
use cpp_game_room.Net.Codec.{encode}
use cpp_game_room.Bot.State.{
  BotClient, BotStats, Work, connects, timer, posted, opening, reading, writing, closing,
  Environment, new_bot,
}
use cpp_game_room.Bot.Socket.{is_empty, do_write, queue_bytes, send_on, send_posted, stop, start}
use cpp_game_room.Bot.Steps.{
  Completion, is_error, bytes_of, complete, take_work, BotEvent, stops, ends, end_work, and_then,
  step, run,
}
use cpp_game_room.Bot.Link.{is_kind, is_beat, wire, pace}
use cpp_game_room.Bot.Wired.{Wired, count-take_work}
use cpp_game_room.Bot.Moves.{first_queued, more_queued, halt, fresh_wire}
use cpp_game_room.Bot.Paced.{Paced}
use cpp_game_room.Bot.Orderly.{Orderly, Taken, add_work-Orderly, lose-Orderly, lose_timer-Orderly}
use cpp_game_room.Bot.Timers.{connect-Orderly, run_task-Orderly}
use cpp_game_room.Bot.Handlers.{
  close_socket-Orderly, on_connect-Orderly, on_read-Orderly, do_write-some, written-Orderly,
}

-- What an exception has not ended is in order.
abbrev pub Holds : (BotClient → Type 0) → Option BotClient → Type 0
Holds P none = Unit {0}
Holds P (some c) = P c

module _ {F : Type 0} (env : Environment F) where
  add_bytes :
      (s : ℕ) (b : List ℕ) (q : List (List ℕ)) (c : BotClient)
      → c.write_queue ≡ q
      → c.running ≡ true
      → c.socket ≡ some s
      → Orderly env c
      → Orderly env (
          if is_empty q
          then do_write s (record c { write_queue = q ++ b ∷ [] })
          else record c { write_queue = q ++ b ∷ [] })
  add_bytes s b [] c is_q on e h =
      subst (Orderly env) (sym (do_write-some env s (record c { write_queue = b ∷ [] }) e)) (
        add_work-Orderly env (writing s b) (record c { write_queue = b ∷ [] }) refl
          (first_queued s b (wire c) on e is_q h.wired) h.paced)
  add_bytes s b (x ∷ q) c is_q on e h = record {
    wired = more_queued b x q (wire c) is_q h.wired;
    paced = h.paced;
  }

  queue_bytes-Orderly :
      (s : ℕ) (bytes : Option (List ℕ)) (c : BotClient)
      → c.running ≡ true
      → c.socket ≡ some s
      → Orderly env c
      → Holds (Orderly env) (queue_bytes s bytes c)
  unfolding queue_bytes
  queue_bytes-Orderly s none c on e h = tt
  queue_bytes-Orderly s (some b) c on e h = add_bytes s b c.write_queue c refl on e h

  send_on-Orderly :
      (o : Option ℕ) (is_open : Bool) (bytes : Option (List ℕ)) (c : BotClient)
      → c.socket ≡ o
      → Orderly env c
      → Holds (Orderly env) (send_on o is_open bytes c)
  send_on-Orderly none is_open bytes c e h = h
  send_on-Orderly (some s) is_open bytes c e h =
      if_intro (Holds (Orderly env)) (not c.running || not c.connected || not is_open) (λ _. h)
        (λ go. queue_bytes-Orderly s bytes c (ground arith) e h)

  -- The handlers of all works.
  complete-Orderly :
      (x : Work) (how : Completion) (c : BotClient)
      → Taken env x c
      → Holds (Orderly env) (complete env x how c)
  unfolding complete send_posted
  complete-Orderly (timer d task) how c h =
      if_intro (Orderly env) (not (is_error how) && c.running)
        (λ _. run_task-Orderly env d task c h) (λ _. lose_timer-Orderly env d task c h)
  complete-Orderly (posted p) how c h =
      send_on-Orderly c.socket (not (is_error how)) (encode p) c refl
        (lose-Orderly env (posted p) c (λ _ s _. (refl, refl)) h)
  complete-Orderly (opening s r) how c h = on_connect-Orderly env s r (is_error how) c h
  complete-Orderly (reading s) how c h = on_read-Orderly env s (bytes_of how) c h
  complete-Orderly (writing s bytes) how c h = written-Orderly env s bytes (is_error how) c h
  complete-Orderly closing how c h = close_socket-Orderly env closing c h

  take_work-Taken :
      (i : ℕ) (x : Work) (rest : List Work) (c : BotClient)
      → take_work i c.pending ≡ some (x, rest)
      → Orderly env c
      → Taken env x (record c { pending = rest })
  take_work-Taken i x rest c e h = record {
    wired =
        subst Wired
          (λ j. record (wire c) { at = λ k. count-take_work (is_kind k) i c.pending x rest e j })
          h.wired;
    paced =
        subst (Paced env.options.max_reconnects)
          (λ j. record (pace c) { beats = count-take_work is_beat i c.pending x rest e j }) h.paced;
  }

  end_work-Orderly :
      (o : Option (Work × List Work)) (i : ℕ) (how : Completion) (c : BotClient)
      → take_work i c.pending ≡ o
      → Orderly env c
      → Holds (Orderly env) (end_work env o how c)
  unfolding end_work
  end_work-Orderly none i how c e h = h
  end_work-Orderly (some (x, rest)) i how c e h =
      complete-Orderly x how (record c { pending = rest }) (take_work-Taken i x rest c e h)

  stop-Orderly : (c : BotClient) → Orderly env c → Orderly env (stop c)
  unfolding stop
  stop-Orderly c h =
      if_intro (Orderly env) (not c.running) (λ _. h)
        (λ _.
          add_work-Orderly env closing (record c { running = false }) refl (halt (wire c) h.wired)
            h.paced)

  step-Orderly : (e : BotEvent) (c : BotClient) → Orderly env c → Holds (Orderly env) (step env e c)
  unfolding step
  step-Orderly stops c h = stop-Orderly c h
  step-Orderly (ends i how) c h = end_work-Orderly (take_work i c.pending) i how c refl h

  and_then-Orderly :
      (o : Option BotClient) (f : BotClient → Option BotClient)
      → Holds (Orderly env) o
      → ((c : BotClient) → Orderly env c → Holds (Orderly env) (f c))
      → Holds (Orderly env) (and_then o f)
  and_then-Orderly none f h k = tt
  and_then-Orderly (some c) f h k = k c h

  run-Orderly :
      (es : List BotEvent) (c : BotClient) → Orderly env c → Holds (Orderly env) (run env es c)
  unfolding run
  run-Orderly [] c h = h
  run-Orderly (e ∷ es) c h =
      and_then-Orderly (step env e c) (run env es) (step-Orderly e c h) (run-Orderly es)

  new_bot-Taken :
      (stats : Option BotStats)
      → Taken env (timer (pos 0) (connects false)) (record (new_bot stats) { running = true })
  new_bot-Taken stats = record {
    wired =
        fresh_wire (pos 0) false (wire (record (new_bot stats) { running = true })) refl refl
          (λ _. refl);
    paced = record { one_beat = omega arith; few_reconnects = omega arith };
  }

  -- For a bot that is started, whatever the server sends, in whatever order what is pending ends,
  -- well or with an error, and whenever Stop comes, unless an exception of Encode has ended the
  -- bot: of being connected, an attempt to connect under way, and an attempt that waits, at most
  -- one is the case at a time, and none may be; each socket has at most one connection or read
  -- and at most one write under way; while the bot runs and is connected its socket is being
  -- read, and while it runs and has a socket a write to it is under way exactly when the queue is
  -- not empty; at most one heartbeat waits, and none before the heartbeat was started; and the
  -- count of reconnections stays within max_reconnects.
  pub run-start-Orderly :
      (stats : Option BotStats) (es : List BotEvent)
      → Holds (Orderly env) (run env es (start env (new_bot stats)))
  unfolding start
  run-start-Orderly stats es = run-Orderly es (start env (new_bot stats)) (
      connect-Orderly env (pos 0) false false (record (new_bot stats) { running = true })
        (new_bot-Taken stats))
