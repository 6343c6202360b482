-- ===== src/Bot/Handlers.antt =====
-- The handlers of a bot's socket keep its works and its pace in order.
use cpp_game_room.Base.{
  ℕ, ◌+◌, ◌≡◌, refl, sym, subst, Bool, true, false, not, ◌&&◌, ◌||◌, Option, none, some, List, [],
  ◌∷◌, ◌++◌, ◌==◌, arith, if◌then◌else◌, if_intro,
}
use cpp_game_room.Base.Int.{pos}
use cpp_game_room.Net.Codec.{Decoded, packets, invalid_length, out_of_fuel, decode}
use cpp_game_room.Net.Codec.Stream.{Bounded, decode-Bounded}
use cpp_game_room.Bot.State.{
  BotClient, Work, opening, reading, writing, Environment, tally, max_ℤ, login_req, reconnect_req,
}
use cpp_game_room.Bot.Socket.{
  is_socket, tail, close_socket, write_first, do_write, written, login, send_reconnect, has_session,
  on_connect,
}
use cpp_game_room.Bot.Messages.{after_decode, on_read}
use cpp_game_room.Bot.Link.{wire, pace, link, link-send_request}
use cpp_game_room.Bot.Wired.{Wired, with_work, unplug}
use cpp_game_room.Bot.Moves.{retry, open_wire, hang, all_sent, next_sent}
use cpp_game_room.Bot.Paced.{Paced}
use cpp_game_room.Bot.Handling.{on_messages-Handled}
use cpp_game_room.Bot.Orderly.{
  Orderly, Taken, Orderly-link, less_beats, add_work-Orderly, schedule_connect-Orderly,
  lose-Orderly,
}

-- A handler that finds another socket, or the bot stopped.
spared_read :
    (s : ℕ) (c : BotClient)
    → not c.running || not (is_socket s c.socket) ≡ true
    → c.running ≡ true
    → (t : ℕ) → c.socket ≡ some t
    → (s == t) ≡ false
spared_read s c stale on t e = ground arith

is_socket-some : (s : ℕ) (o : Option ℕ) → is_socket s o ≡ true → o ≡ some s
is_socket-some s none e = ground arith
is_socket-some s (some t) e = ground arith

module _ {F : Type 0} (env : Environment F) where
  pub close_socket-Orderly :
      (x : Work) (c : BotClient) → Taken env x c → Orderly env (close_socket c)
  unfolding close_socket
  close_socket-Orderly x c h = record {
    wired = unplug x (wire c) h.wired;
    paced = less_beats env x (pace c) h.paced;
  }

  -- The request after a connection.
  link-greet :
      (reconnect : Bool) (c : BotClient)
      → link (if reconnect then send_reconnect env c else login env c) ≡ link c
  unfolding send_reconnect login
  link-greet true c = link-send_request env (reconnect_req c.player_id c.session_token) c
  link-greet false c = link-send_request env (login_req env.account "bot_token") c

  pub on_connect-Orderly :
      (s : ℕ) (r ec : Bool) (c : BotClient)
      → Taken env (opening s r) c
      → Orderly env (on_connect env s r ec c)
  unfolding on_connect tally
  on_connect-Orderly s r ec c h =
      let p = less_beats env (opening s r) (pace c) h.paced in
      if_intro (Orderly env) (not c.running || not (is_socket s c.socket))
        (λ stale.
          lose-Orderly env (opening s r) c (λ on t e. (spared_read s c stale on t e, refl)) h)
        (λ here.
          if_intro (Orderly env) ec
            (λ _.
              schedule_connect-Orderly env env.options.reconnect_delay_ms r _ (λ off. ground arith)
                (retry s (max_ℤ (pos 0) env.options.reconnect_delay_ms) r r (wire c) h.wired) p)
            (λ _.
              let c' =
                tally (λ t. record t { connect_ok = t.connect_ok + 1 })
                  (record c { connected = true }) in
              let e = link-greet (r && has_session env c) c' in
              add_work-Orderly env (reading s) _ refl
                (subst (λ l. Wired (with_work (reading s) l.0)) (sym e)
                  (open_wire s r (wire c) (is_socket-some s c.socket (ground arith)) h.wired))
                (subst (λ l. Paced env.options.max_reconnects l.1) (sym e) p)))

  after_decode-Orderly :
      (s : ℕ) (d : Decoded) (c : BotClient)
      → Bounded d
      → Taken env (reading s) c
      → Orderly env (after_decode env s d c)
  unfolding after_decode
  after_decode-Orderly s (packets ps rest) c b h =
      let k = on_messages-Handled env ps (record c { read_buffer = rest }) in
      add_work-Orderly env (reading s) _ refl
        (subst (λ w. Wired (with_work (reading s) w)) (sym k.same_wire) h.wired)
        (k.stays_paced (less_beats env (reading s) (pace c) h.paced))
  after_decode-Orderly s (invalid_length rest) c b h =
      let p = less_beats env (reading s) (pace c) h.paced in
      Orderly-link env (close_socket c) _ refl (close_socket-Orderly (reading s) c h)
  after_decode-Orderly s out_of_fuel c b h = elim b [ ]

  pub on_read-Orderly :
      (s : ℕ) (bytes : Option (List ℕ)) (c : BotClient)
      → Taken env (reading s) c
      → Orderly env (on_read env s bytes c)
  unfolding on_read
  on_read-Orderly s none c h =
      if_intro (Orderly env) (not c.running || not (is_socket s c.socket))
        (λ stale. lose-Orderly env (reading s) c (λ on t e. (spared_read s c stale on t e, refl)) h)
        (λ _. record {
          wired = hang s (wire c) h.wired;
          paced = less_beats env (reading s) (pace c) h.paced;
        })
  on_read-Orderly s (some more) c h =
      if_intro (Orderly env) (not c.running || not (is_socket s c.socket))
        (λ stale. lose-Orderly env (reading s) c (λ on t e. (spared_read s c stale on t e, refl)) h)
        (λ _.
          after_decode-Orderly s (decode (c.read_buffer ++ more)) c
            (decode-Bounded (c.read_buffer ++ more)) h)

  -- DoWrite on the socket of the bot.
  pub do_write-some :
      (s : ℕ) (c : BotClient) → c.socket ≡ some s → do_write s c ≡ write_first s c.write_queue c
  unfolding do_write
  do_write-some s c e = ground arith

  -- The end of a write, on the queue that it leaves.
  write_rest :
      (s : ℕ) (bytes : List ℕ) (q : List (List ℕ)) (c : BotClient)
      → c.running ≡ true
      → c.socket ≡ some s
      → Taken env (writing s bytes) c
      → Orderly env (write_first s q (record c { write_queue = q }))
  write_rest s bytes [] c on e h = record {
    wired = all_sent s bytes (wire c) on e h.wired;
    paced = less_beats env (writing s bytes) (pace c) h.paced;
  }
  write_rest s bytes (b ∷ q) c on e h =
      add_work-Orderly env (writing s b) (record c { write_queue = b ∷ q }) refl
        (next_sent s bytes b q (wire c) e h.wired)
        (less_beats env (writing s bytes) (pace c) h.paced)

  pub written-Orderly :
      (s : ℕ) (bytes : List ℕ) (ec : Bool) (c : BotClient)
      → Taken env (writing s bytes) c
      → Orderly env (written s ec c)
  unfolding written
  written-Orderly s bytes ec c h =
      if_intro (Orderly env) (not c.running || not (is_socket s c.socket))
        (λ stale.
          lose-Orderly env (writing s bytes) c (λ on t e. (refl, spared_read s c stale on t e)) h)
        (λ here.
          if_intro (Orderly env) ec (λ _. close_socket-Orderly (writing s bytes) c h)
            (λ _.
              let e = is_socket-some s c.socket (ground arith) in
              subst (Orderly env)
                (sym (do_write-some s (record c { write_queue = tail c.write_queue }) e))
                (write_rest s bytes (tail c.write_queue) c (ground arith) e h)))
