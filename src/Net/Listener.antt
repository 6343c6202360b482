-- ===== src/Net/Listener.antt =====
-- src/net/tcp_server.cpp: when the server listens. What it does with a connection that came is in
-- Service/Server.
use cpp_game_room.Base.{ℕ, ◌+◌, ◌%◌, ◌^◌, Bool, true, false, not, Option, none, some, if◌then◌else◌}
use cpp_game_room.Base.Int.{ℤ, pos, leb_ℤ}

-- The connection whose async_accept is pending, and the next id that NextSessionId gives.
pub record TcpServer : Type 0 where
  pub running : Bool
  pub accepting : Option ℕ
  pub next_session_id : ℕ
  pub worker_threads : ℤ

-- The constructor.
abbrev pub new_server : ℤ → ℕ → TcpServer
new_server worker_threads next_session_id = record {
  running = false;
  accepting = none;
  next_session_id = next_session_id;
  worker_threads = if leb_ℤ worker_threads (pos 0) then pos 1 else worker_threads;
}

-- The calls of Start whose errors it looks at.
pub data ListenCall : Type 0 where
  make_address open_acceptor bind listen : ListenCall

-- The beginning of DoAccept.
unfoldable pub do_accept : TcpServer → TcpServer
do_accept s = record s {
  accepting = some s.next_session_id;
  next_session_id = (s.next_session_id + 1) % 2 ^ 64;
}

-- Start up to the threads, for what the calls answer; it returns true after the threads have ended.
unfoldable pub start : (ListenCall → Bool) → TcpServer → TcpServer × Bool
unfolding do_accept
start answers s =
    if not (answers make_address)
    then (s, false)
    else if not (answers open_acceptor)
    then (s, false)
    else if not (answers bind)
    then (s, false)
    else if not (answers listen)
    then (s, false)
    else (do_accept (record s { running = true }), true)

-- Stop. The pending async_accept may still end.
unfoldable pub stop : TcpServer → TcpServer
stop s = if not s.running then s else record s { running = false }

-- The handler of async_accept, with its error, and the connection that came.
unfoldable pub on_accept : Bool → TcpServer → TcpServer × Option ℕ
unfolding do_accept
on_accept ec s =
    let s' = record s { accepting = none } in
    (if s.running then do_accept s' else s', if ec then none else s.accepting)
