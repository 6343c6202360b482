-- ===== src/Bot/Socket.antt =====
-- bot/bot_client.cpp: the connection of a bot.
use text.Mathlib.Text.{◌==◌ as str_eq}
use cpp_game_room.Base.{
  ℕ, ◌+◌, Bool, true, false, not, ◌&&◌, ◌||◌, Option, none, some, List, [], ◌∷◌, ◌++◌, ◌==◌,
  if◌then◌else◌,
}
use cpp_game_room.Bot.State.{
  BotClient, connecting, connects, opening, reading, writing, closing, login_req, reconnect_req,
  Environment, tally, add_work, asked, schedule_timer, send_request, schedule_jitter,
}

abbrev pub is_socket : ℕ → Option ℕ → Bool
is_socket s none = false
is_socket s (some t) = t == s

abbrev pub is_empty : List (List ℕ) → Bool
is_empty [] = true
is_empty (x ∷ xs) = false

abbrev pub tail : List (List ℕ) → List (List ℕ)
tail [] = []
tail (x ∷ xs) = xs

-- CloseSocket; the shutdown and close of the socket end what is pending on it.
unfoldable pub close_socket : BotClient → BotClient
close_socket c = record c {
  connected = false;
  input_loop_active = false;
  write_queue = [];
  socket = none;
}

-- The end of DoRead, and Start's call of it.
abbrev pub do_read : ℕ → BotClient → BotClient
do_read s c = add_work (reading s) c

abbrev pub write_first : ℕ → List (List ℕ) → BotClient → BotClient
write_first s [] c = c
write_first s (bytes ∷ rest) c = add_work (writing s bytes) c

-- DoWrite on a socket that is not null.
unfoldable pub do_write : ℕ → BotClient → BotClient
do_write s c = if not (is_socket s c.socket) then c else write_first s c.write_queue c

-- What Encode gives goes to the end of the queue, and is written if it is the only one; `none` is
-- the exception of Encode, which nothing catches.
unfoldable pub queue_bytes : ℕ → Option (List ℕ) → BotClient → Option BotClient
unfolding do_write
queue_bytes s none c = none
queue_bytes s (some b) c =
    let c' = record c { write_queue = c.write_queue ++ b ∷ [] } in
    some (if is_empty c.write_queue then do_write s c' else c')

abbrev pub send_on : Option ℕ → Bool → Option (List ℕ) → BotClient → Option BotClient
send_on none is_open bytes c = some c
send_on (some s) is_open bytes c =
    if not c.running || not c.connected || not is_open then some c else queue_bytes s bytes c

-- The handler that SendPacket posts, for what is_open and Encode give.
unfoldable pub send_posted : Bool → Option (List ℕ) → BotClient → Option BotClient
unfolding queue_bytes
send_posted is_open bytes c = send_on c.socket is_open bytes c

-- The handler of async_write; the flag is its error.
unfoldable pub written : ℕ → Bool → BotClient → BotClient
unfolding close_socket do_write
written s ec c =
    if not c.running || not (is_socket s c.socket)
    then c
    else if ec
    then close_socket c
    else do_write s (record c { write_queue = tail c.write_queue })

-- Stop. What io_context has not run yet may still be run, or not.
unfoldable pub stop : BotClient → BotClient
stop c = if not c.running then c else add_work closing (record c { running = false })

module _ {F : Type 0} (env : Environment F) where
  -- Connect
  unfoldable pub connect : Bool → BotClient → BotClient
  unfolding schedule_timer tally
  connect reconnect c =
      let s = c.next_socket in
      let c' = asked (record c {
        state = connecting;
        connected = false;
        read_buffer = [];
        write_queue = [];
        socket = some s;
        next_socket = s + 1;
      }) in
      if not c.running
      then c
      else if not (env.resolves c.draws)
      then schedule_timer env.options.reconnect_delay_ms (connects reconnect)
          (tally (λ t. record t { connect_failed = t.connect_failed + 1 }) c')
      else add_work (opening s reconnect) c'

  -- Start
  unfoldable pub start : BotClient → BotClient
  unfolding connect
  start c = if c.running then c else connect false (record c { running = true })

  unfoldable pub login : BotClient → BotClient
  unfolding send_request
  login c = send_request env (login_req env.account "bot_token") c

  -- BotClient::Reconnect
  unfoldable pub send_reconnect : BotClient → BotClient
  unfolding send_request
  send_reconnect c = send_request env (reconnect_req c.player_id c.session_token) c

  -- `player_id_ != 0 && !session_token_.empty()`
  abbrev pub has_session : BotClient → Bool
  has_session c = not (c.player_id == 0) && not (str_eq c.session_token "")

  -- The handler of async_connect; the flag `ec` is its error.
  unfoldable pub on_connect : ℕ → Bool → Bool → BotClient → BotClient
  unfolding schedule_timer tally login send_reconnect
  on_connect s reconnect ec c =
      let c' =
        tally (λ t. record t { connect_ok = t.connect_ok + 1 }) (record c { connected = true }) in
      if not c.running || not (is_socket s c.socket)
      then c
      else if ec
      then schedule_timer env.options.reconnect_delay_ms (connects reconnect)
          (tally (λ t. record t { connect_failed = t.connect_failed + 1 }) c)
      else do_read s (if reconnect && has_session c then send_reconnect c' else login c')

  unfoldable pub schedule_reconnect : BotClient → BotClient
  unfolding schedule_jitter
  schedule_reconnect c =
      if not c.running || not (has_session c)
      then c
      else schedule_jitter env env.options.reconnect_delay_ms (connects true) c
