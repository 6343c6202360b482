-- ===== src/Net/Connection.antt =====
-- src/net/tcp_connection.cpp: one connection. Its strand runs the handlers one after the other, so
-- each is a step; what they ask of boost::asio and of the callbacks is a list of effects.
pub mod Writing
pub mod Reading
pub mod Examples
use cpp_game_room.Base.{
  ℕ, Bool, true, false, Option, none, some, List, [], ◌∷◌, ◌++◌, map, if◌then◌else◌,
}
use cpp_game_room.Net.Packet.{Packet}
use cpp_game_room.Net.Codec.{Decoded, packets, invalid_length, out_of_fuel, decode, encode}

pub data Effect : Type 0 where
  -- async_read_some and async_write, of the bytes that stand first in the queue
  start_read : Effect
  start_write : List ℕ → Effect
  -- message_callback_ and close_callback_
  message : Packet → Effect
  closed : Effect
  -- Close, which posts its handler, and the shutdown and close of the socket
  post_close shut_socket : Effect

-- The buffers; the socket and the callbacks, which are set before Start, are the environment's.
pub record TcpConnection : Type 0 where
  pub read_buffer : List ℕ
  pub write_queue : List (List ℕ)

abbrev pub new_connection : TcpConnection
new_connection = record { read_buffer = []; write_queue = [] }

abbrev pub Step : Type 0
Step = TcpConnection × List Effect

-- The write of the front, which stays in the queue while it is written.
abbrev pub start_first : List (List ℕ) → List Effect
start_first [] = []
start_first (bytes ∷ rest) = start_write bytes ∷ []

unfoldable pub do_write : TcpConnection → Step
do_write c = (c, start_first c.write_queue)

abbrev pub is_idle : List (List ℕ) → Bool
is_idle [] = true
is_idle (bytes ∷ rest) = false

-- The handler that Send posts, after the encoding: `none` is its exception, which nothing catches.
unfoldable pub enqueue : Option (List ℕ) → TcpConnection → Option Step
unfolding do_write
enqueue none c = none
enqueue (some bytes) c =
    let c' = record c { write_queue = c.write_queue ++ bytes ∷ [] } in
    some (if is_idle c.write_queue then do_write c' else (c', []))

unfoldable pub send : Packet → TcpConnection → Option Step
unfolding enqueue
send packet c = enqueue (encode packet) c

-- The handler of Close.
unfoldable pub close : TcpConnection → Step
close c = (c, shut_socket ∷ closed ∷ [])

abbrev pub tail : List (List ℕ) → List (List ℕ)
tail [] = []
tail (bytes ∷ rest) = rest

-- The handler of async_write; true is an error.
unfoldable pub written : Bool → TcpConnection → Step
unfolding do_write
written true c = (c, closed ∷ [])
written false c = do_write (record c { write_queue = tail c.write_queue })

abbrev pub messages : List Packet → List Effect
messages [] = []
messages (p ∷ ps) = message p ∷ messages ps

-- The handler of async_read_some after Decode.
unfoldable pub after_decode : Decoded → TcpConnection → Step
after_decode (packets ps rest) c = (record c { read_buffer = rest }, messages ps ++ start_read ∷ [])
after_decode (invalid_length rest) c = (record c { read_buffer = rest }, post_close ∷ [])
after_decode out_of_fuel c = (c, [])

-- The handler of async_read_some: the bytes, or `none` for an error. The code also closes the
-- connection when the message callback throws, which is not modelled: no handler throws.
unfoldable pub on_read : Option (List ℕ) → TcpConnection → Step
unfolding after_decode
on_read none c = (c, closed ∷ [])
on_read (some bytes) c =
    let buffer = c.read_buffer ++ bytes in
    after_decode (decode buffer) (record c { read_buffer = buffer })

-- TcpConnection::Start
unfoldable pub start : TcpConnection → Step
start c = (c, start_read ∷ [])
