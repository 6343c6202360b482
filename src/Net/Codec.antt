-- ===== src/Net/Codec.antt =====
-- src/net/codec.cpp: the codec of a connection's byte stream. `decode` is the loop of
-- Codec::Decode on fuel; a thrown exception is a value, beside what the buffer then holds.
pub mod Framing
pub mod RoundTrip
pub mod Stream
pub mod Examples
use cpp_game_room.Base.{
  ℕ, zero, suc, ◌+◌, ◌-◌, ◌≤◌, Option, none, some, List, [], ◌∷◌, ◌++◌, ltb, leb, ◌||◌,
  if◌then◌else◌, length, take, drop,
}
use cpp_game_room.Net.Packet.{
  Packet, packet_header_size, packet_meta_size, max_packet_length, read_uint32_be, append_uint32_be,
}

-- One round of the loop: leave it, throw, or take one packet off the buffer.
pub data Round : Type 0 where
  wait : Round
  throw : Round
  take_packet : Packet → List ℕ → Round

unfoldable pub decode_round : List ℕ → Round
decode_round buffer =
    let len = read_uint32_be buffer 0 in
    if ltb (length buffer) packet_header_size
    then wait
    else if ltb len packet_meta_size || ltb max_packet_length len
    then throw
    else if ltb (length buffer) (len + 4)
    then wait
    else take_packet
        (record {
          packet_length = len;
          msg_id = read_uint32_be buffer 4;
          seq = read_uint32_be buffer 8;
          body = take (len - 8) (drop 12 buffer);
        })
        (drop (4 + len) buffer)

-- What Decode leaves: the packets and the buffer, or the buffer at the throw, whose packets are
-- lost with the unwinding. `out_of_fuel` is the model's own.
pub data Decoded : Type 0 where
  packets : List Packet → List ℕ → Decoded
  invalid_length : List ℕ → Decoded
  out_of_fuel : Decoded

unfoldable pub decode_loop : ℕ → List Packet → List ℕ → Decoded
decode_loop zero done buffer = out_of_fuel
decode_loop (suc fuel) done buffer = elim (decode_round buffer) [
  | wait ↦ packets done buffer
  | throw ↦ invalid_length buffer
  | take_packet p rest ↦ decode_loop fuel (done ++ p ∷ []) rest
]

-- A round takes at least twelve bytes, so one round more than there are bytes is enough.
unfoldable pub decode : List ℕ → Decoded
unfolding decode_loop
decode buffer = decode_loop (suc (length buffer)) [] buffer

-- `none` is the exception "packet body too large".
unfoldable pub encode : Packet → Option (List ℕ)
encode p =
    let len = packet_meta_size + length p.body in
    if ltb (max_packet_length - packet_meta_size) (length p.body)
    then none
    else some
        (append_uint32_be (append_uint32_be (append_uint32_be [] len) p.msg_id) p.seq ++ p.body)
