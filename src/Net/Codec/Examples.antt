-- ===== src/Net/Codec/Examples.antt =====
-- Two packets on the wire: a heartbeat with an empty body and a ready request of two bytes.
use cpp_game_room.Base.{ℕ, ◌≡◌, refl, some, List, [], ◌∷◌, ◌++◌, arith, take, drop}
use cpp_game_room.Net.Packet.{Packet, read_uint32_be, append_uint32_be}
use cpp_game_room.Net.Codec.{packets, invalid_length, decode_round, decode, encode}
use cpp_game_room.Net.Codec.Framing.{IsValid}
use cpp_game_room.Net.Codec.Stream.{InPieces, decode-InPieces, Preceded, Bounded, decode-Bounded}
use cpp_game_room.Net.Codec.RoundTrip.{encode_all, decode-encode_all, Explains, decode-Explains}

abbrev heartbeat : Packet
heartbeat = record { packet_length = 8; msg_id = 1003; seq = 1; body = [] }

abbrev ready : Packet
ready = record { packet_length = 10; msg_id = 3001; seq = 258; body = 8 ∷ 1 ∷ [] }

abbrev wire : List ℕ
wire =
    0 ∷ 0 ∷ 0 ∷ 8 ∷ 0 ∷ 0 ∷ 3 ∷ 235 ∷ 0 ∷ 0 ∷ 0 ∷ 1 ∷ 0 ∷ 0 ∷ 0 ∷ 10 ∷ 0 ∷ 0 ∷ 11 ∷ 185 ∷ 0 ∷ 0 ∷ 1
    ∷ 2 ∷ 8 ∷ 1 ∷ []

decode_both : decode (wire ++ 0 ∷ 0 ∷ []) ≡ packets (heartbeat ∷ ready ∷ []) (0 ∷ 0 ∷ [])
unfolding decode decode_round read_uint32_be
decode_both = refl

encode_ready : encode ready ≡ some (drop 12 wire)
unfolding encode append_uint32_be
encode_ready = refl

bad_length :
    decode (take 12 wire ++ 0 ∷ 0 ∷ 0 ∷ 7 ∷ drop 4 wire)
    ≡ invalid_length (0 ∷ 0 ∷ 0 ∷ 7 ∷ drop 4 wire)
unfolding decode decode_round read_uint32_be
bad_length = refl

heartbeat-IsValid : IsValid heartbeat
heartbeat-IsValid = record {
  counts = refl;
  fits = omega arith;
  id_fits = omega arith;
  seq_fits = omega arith;
  of_bytes = tt;
}

ready-IsValid : IsValid ready
ready-IsValid = record {
  counts = omega arith;
  fits = omega arith;
  id_fits = omega arith;
  seq_fits = omega arith;
  of_bytes = omega arith;
}

decode-InPieces_example :
    InPieces (drop 15 wire) (decode (take 15 wire)) (decode (take 15 wire ++ drop 15 wire))
decode-InPieces_example = decode-InPieces (take 15 wire) (drop 15 wire)

-- Bytes behind the packets that are rejected: no packet is returned.
lost : decode (wire ++ 0 ∷ 0 ∷ 0 ∷ 7 ∷ drop 4 wire) ≡ invalid_length (0 ∷ 0 ∷ 0 ∷ 7 ∷ drop 4 wire)
unfolding decode decode_round read_uint32_be
lost = refl

decode-Bounded_example : Bounded (decode wire)
decode-Bounded_example = decode-Bounded wire

decode-encode_all_example :
    (bytes : List ℕ) × (encode_all (heartbeat ∷ ready ∷ []) ≡ some bytes)
    × Preceded (heartbeat ∷ ready ∷ []) (decode (0 ∷ [])) (decode (bytes ++ 0 ∷ []))
decode-encode_all_example =
    decode-encode_all (heartbeat ∷ ready ∷ []) (0 ∷ []) (heartbeat-IsValid, (ready-IsValid, tt))

decode-Explains_example : Explains wire (decode wire)
decode-Explains_example = decode-Explains wire (omega arith)
