-- ===== src/Net/Codec/Framing.antt =====
-- What one round of Codec::Decode takes off the buffer.
use cpp_game_room.Base.{
  ℕ, ◌+◌, ◌-◌, ◌≤◌, ◌<◌, ◌≡◌, refl, ◌⊎◌, inl, inr, List, [], ◌∷◌, ◌++◌, ◌||◌, ltb, arith, length,
  take, drop, length-drop, Bool-cases,
}
use cpp_game_room.Net.Packet.{Packet, Bytes, max_packet_length, read_uint32_be, append_uint32_be}
use cpp_game_room.Net.Codec.{
  Round, wait, throw, take_packet, decode_round, Decoded, packets, invalid_length, out_of_fuel,
}

-- A packet as the protocol has it: the numbers fit, the body is bytes within the limit, and the
-- length field counts it.
pub record IsValid (p : Packet) : Type 0 where
  pub counts : p.packet_length ≡ 8 + length p.body
  pub fits : p.packet_length ≤ max_packet_length
  pub id_fits : p.msg_id < 4294967296
  pub seq_fits : p.seq < 4294967296
  pub of_bytes : Bytes p.body

-- The three ways in which a round can end, with what holds of each.
pub data RoundView (buffer : List ℕ) : Round → Type 0 where
  waits :
      (length buffer < 12)
        ⊎ ((length buffer < read_uint32_be buffer 0 + 4)
            × (read_uint32_be buffer 0 ≤ max_packet_length))
      → RoundView buffer wait
  throws :
      12 ≤ length buffer
      → (read_uint32_be buffer 0 < 8) ⊎ (max_packet_length < read_uint32_be buffer 0)
      → RoundView buffer throw
  takes :
      (p : Packet)
      → (rest : List ℕ) → 12 ≤ length buffer
      → 8 ≤ p.packet_length
      → p.packet_length ≤ max_packet_length
      → p.packet_length + 4 ≤ length buffer
      → p.packet_length ≡ read_uint32_be buffer 0
      → p.msg_id ≡ read_uint32_be buffer 4
      → p.seq ≡ read_uint32_be buffer 8
      → p.body ≡ take (p.packet_length - 8) (drop 12 buffer)
      → rest ≡ drop (4 + p.packet_length) buffer
      → RoundView buffer (take_packet p rest)

pub decode_round-RoundView : (buffer : List ℕ) → RoundView buffer (decode_round buffer)
unfolding decode_round
decode_round-RoundView buffer = elim (Bool-cases (ltb (length buffer) 12)) [
  | inl short ↦ rw short (waits (inl (ground arith)))
  | inr long ↦ elim (Bool-cases (ltb len 8 || ltb max_packet_length len)) [
    | inl bad ↦ rw (long, bad) (throws (ground arith) (ground arith))
    | inr good ↦ elim (Bool-cases (ltb (length buffer) (len + 4))) [
      | inl part ↦ rw (long, good, part) (waits (inr (ground arith, ground arith)))
      | inr whole ↦
          rw (long, good, whole)
            (takes _ _ (ground arith) (ground arith) (ground arith) (ground arith) refl refl refl
              refl refl)
    ]
  ]
]
  where
    len : ℕ
    len = read_uint32_be buffer 0

-- The bytes of a packet: its header and its body.
abbrev pub frame : Packet → List ℕ
frame p =
    append_uint32_be (append_uint32_be (append_uint32_be [] p.packet_length) p.msg_id) p.seq
    ++ p.body

abbrev pub frames : List Packet → List ℕ
frames [] = []
frames (p ∷ ps) = frame p ++ frames ps

-- The results of a run that comes after the packets `done`.
abbrev pub after : List Packet → Decoded → Decoded
after done (packets ps rest) = packets (done ++ ps) rest
after done (invalid_length rest) = invalid_length rest
after done out_of_fuel = out_of_fuel

-- A round that takes a packet makes the buffer shorter.
pub decode_round-shorter :
    (buffer : List ℕ) (p : Packet) (rest : List ℕ)
    → decode_round buffer ≡ take_packet p rest
    → length rest < length buffer
decode_round-shorter buffer p rest e = go (decode_round buffer) (decode_round-RoundView buffer) e
  where
    go : (r : Round) → RoundView buffer r → r ≡ take_packet p rest → length rest < length buffer
    go wait v e = cc
    go throw v e = cc
    go (take_packet q r) (takes _ _ a b c d _ _ _ _ g) e =
        ground (arith, length-drop (4 + q.packet_length) buffer)
