-- ===== src/Net/Connection/Examples.antt =====
-- The theorems on connections at concrete inputs.
use cpp_game_room.Base.{ℕ, ◌≡◌, refl, some, List, [], ◌∷◌, ◌++◌}
use cpp_game_room.Net.Packet.{Packet, read_uint32_be, append_uint32_be}
use cpp_game_room.Net.Codec.{packets, decode, decode_round, decode_loop, encode}
use cpp_game_room.Net.Codec.Framing.{frame}
use cpp_game_room.Net.Connection.{
  new_connection, send, enqueue, do_write, written, on_read, after_decode,
}
use cpp_game_room.Net.Connection.Writing.{
  Reach, fresh, sends, completes, reads, InOrder, Reach-InOrder,
}
use cpp_game_room.Net.Connection.Reading.{Delivered, read_all, join, read_all-Delivered}

abbrev pub heartbeat : Packet
heartbeat = record { packet_length = 9; msg_id = 1003; seq = 1; body = 7 ∷ [] }

abbrev pub answer : Packet
answer = record { packet_length = 8; msg_id = 1004; seq = 2; body = [] }

-- Two sends, a read between, and the end of the first write.
abbrev pub history :
    Reach
      (frame heartbeat ∷ frame answer ∷ [])
      1
      (record { read_buffer = 0 ∷ []; write_queue = frame answer ∷ [] })
      (frame heartbeat ∷ frame answer ∷ [])
unfolding send enqueue do_write written on_read after_decode encode append_uint32_be decode
    decode_loop decode_round
history =
    completes
      (sends answer (frame answer) _
        (reads (some (0 ∷ [])) (sends heartbeat (frame heartbeat) _ fresh refl refl)) refl refl)
      refl

Reach-InOrder_example :
    InOrder
      (frame heartbeat ∷ frame answer ∷ [])
      1
      (record { read_buffer = 0 ∷ []; write_queue = frame answer ∷ [] })
      (frame heartbeat ∷ frame answer ∷ [])
Reach-InOrder_example = Reach-InOrder history

-- A frame in two pieces, and the first byte of the next one.
abbrev pieces : List (List ℕ)
pieces = (0 ∷ 0 ∷ 0 ∷ 9 ∷ 0 ∷ 0 ∷ 3 ∷ []) ∷ (235 ∷ 0 ∷ 0 ∷ 0 ∷ 1 ∷ 7 ∷ 0 ∷ []) ∷ []

whole : decode (new_connection.read_buffer ++ join pieces) ≡ packets (heartbeat ∷ []) (0 ∷ [])
unfolding decode decode_loop decode_round read_uint32_be
whole = refl

nothing : decode [] ≡ packets [] []
unfolding decode decode_loop decode_round
nothing = refl

read_all-Delivered_example : Delivered (heartbeat ∷ []) (0 ∷ []) (read_all pieces new_connection)
read_all-Delivered_example =
    read_all-Delivered pieces new_connection (heartbeat ∷ []) (0 ∷ []) nothing whole
