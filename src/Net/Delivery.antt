-- ===== src/Net/Delivery.antt =====
-- A message on its way from one side to the other: src/protocol/proto_helper.cpp, src/net/codec.cpp
-- and src/net/tcp_connection.cpp together.
pub mod Examples
use mathlib.Core.List.{append-nil}
use cpp_game_room.Base.{
  ℕ, zero, suc, ◌+◌, ◌≤◌, ◌<◌, ◌≡◌, refl, sym, ap, ◌∙◌, subst, Option, none, some, List, [], ◌∷◌,
  ◌++◌, map, take, length, arith, All,
}
use cpp_game_room.Base.Map.{some-inj}
use cpp_game_room.Net.Packet.{Packet, Bytes, max_packet_length, packet_meta_size}
use cpp_game_room.Net.Codec.{packets, decode, decode_loop, decode_round, encode}
use cpp_game_room.Net.Codec.Framing.{IsValid, frame, frames, after}
use cpp_game_room.Net.Codec.RoundTrip.{encode-frame, decode-frames}
use cpp_game_room.Net.Connection.{TcpConnection, Effect, new_connection}
use cpp_game_room.Net.Connection.Writing.{Reach, InOrder, Reach-InOrder}
use cpp_game_room.Net.Connection.Reading.{
  Delivered, Stays, delivered, read_all, join, read_all-Delivered,
}
use cpp_game_room.Net.Protocol.{Protobuf, parse, build}

-- A message of any type that is sent with an id and a sequence number.
pub record Outgoing : Type 1 where
  pub Message : Type 0
  pub proto : Protobuf Message
  pub msg_id : ℕ
  pub message : Message
  pub seq : ℕ

abbrev pub packet_of : Outgoing → Packet
packet_of o = build o.proto o.msg_id o.message o.seq

-- Protobuf reads back what it wrote, which is bytes within the limit; the numbers fit.
pub record Sendable (o : Outgoing) : Type 0 where
  pub reads_back : o.proto.parse_from (o.proto.serialize o.message) ≡ some o.message
  pub of_bytes : Bytes (o.proto.serialize o.message)
  pub fits : 8 + length (o.proto.serialize o.message) ≤ max_packet_length
  pub id_fits : o.msg_id < 4294967296
  pub seq_fits : o.seq < 4294967296

abbrev pub AllSendable : List Outgoing → Type 0
AllSendable [] = Unit {0}
AllSendable (o ∷ os) = Sendable o × AllSendable os

-- The encodings of the packets that are built of the messages.
abbrev pub Encodes : List Outgoing → List (List ℕ) → Type 0
Encodes [] [] = Unit {0}
Encodes (o ∷ os) (b ∷ bs) = (encode (packet_of o) ≡ some b) × Encodes os bs
Encodes _ _ = ⊥

-- The packets carry these messages, one each, in this order.
abbrev pub Carries : List Packet → List Outgoing → Type 0
Carries [] [] = Unit {0}
Carries (p ∷ ps) (o ∷ os) =
    (p.msg_id ≡ o.msg_id) × (p.seq ≡ o.seq) × (parse o.proto p ≡ some o.message) × Carries ps os
Carries _ _ = ⊥

-- The messages have come, no byte is left of them, and the connection stays.
pub record Arrived (os : List Outgoing) (c : TcpConnection) (effects : List Effect) : Type 0 where
  pub carried : Carries (delivered effects) os
  pub no_rest : c.read_buffer ≡ []
  pub stays_open : Stays effects

IsValid-build : (o : Outgoing) → Sendable o → IsValid (packet_of o)
unfolding build
IsValid-build o s =
    let f = s.fits in
    record {
      counts = omega arith;
      fits = omega arith;
      id_fits = s.id_fits;
      seq_fits = s.seq_fits;
      of_bytes = s.of_bytes;
    }

abbrev packets_of : ℕ → List Outgoing → List Packet
packets_of n os = map packet_of (take n os)

packets-IsValid : (n : ℕ) (os : List Outgoing) → AllSendable os → All IsValid (packets_of n os)
packets-IsValid zero os s = tt
packets-IsValid (suc n) [] s = tt
packets-IsValid (suc n) (o ∷ os) (s, more) = (IsValid-build o s, packets-IsValid n os more)

-- What is written of the encodings is the frames of the packets.
join-frames :
    (n : ℕ) (os : List Outgoing) (sent : List (List ℕ))
    → AllSendable os
    → Encodes os sent
    → join (take n sent) ≡ frames (packets_of n os)
join-frames zero os sent s e = refl
join-frames (suc n) [] [] s e = refl
join-frames (suc n) [] (b ∷ bs) s e = elim e [ ]
join-frames (suc n) (o ∷ os) [] s e = elim e [ ]
join-frames (suc n) (o ∷ os) (b ∷ bs) (s, more) (e, rest) =
    ap (λ (x : List ℕ). x ++ join (take n bs))
      (some-inj (sym e ∙ encode-frame (packet_of o) (IsValid-build o s)))
    ∙ ap (λ (x : List ℕ). frame (packet_of o) ++ x) (join-frames n os bs more rest)

decode-frames_end : (ps : List Packet) → All IsValid ps → decode (frames ps) ≡ packets ps []
unfolding decode decode_loop decode_round
decode-frames_end ps v =
    ap decode (sym (append-nil (frames ps)))
    ∙ decode-frames ps [] v
    ∙ ap (λ (qs : List Packet). packets qs []) (append-nil ps)

Carries-packets :
    (n : ℕ) (os : List Outgoing) → AllSendable os → Carries (packets_of n os) (take n os)
unfolding build parse
Carries-packets zero os s = tt
Carries-packets (suc n) [] s = tt
Carries-packets (suc n) (o ∷ os) (s, more) = (refl, refl, s.reads_back, Carries-packets n os more)

take-take : (n : ℕ) (xs : List (List ℕ)) → take n (take (suc n) xs) ≡ take n xs
take-take zero xs = refl
take-take (suc n) [] = refl
take-take (suc n) (x ∷ xs) = ap (◌∷◌ x) (take-take n xs)

nothing_yet : decode [] ≡ packets [] []
unfolding decode decode_loop decode_round
nothing_yet = refl

-- Where protobuf reads back each message that is sent, and what it wrote is bytes within the
-- limit, and the ids and sequence numbers fit: of messages that Build, Encode and Send take to a
-- connection, with reads and completed writes at any time and no write error, those whose writes
-- are complete arrive at a new connection that reads their bytes in any pieces; the packets
-- handed to its message callback are as many, in the order of sending, with the ids and sequence
-- numbers given, and Parse gives the messages; no byte is left over, and the connection stays
-- open.
pub Reach-Arrived :
    (os : List Outgoing) (sent : List (List ℕ)) (done : ℕ) (c : TcpConnection)
    (started chunks : List (List ℕ))
    → AllSendable os
    → Encodes os sent
    → Reach sent done c started
    → join chunks ≡ join (take done started)
    → Arrived (take done os) (read_all chunks new_connection).0 (read_all chunks new_connection).1
Reach-Arrived os sent done c started chunks s e r whole =
    let ps = packets_of done os in
    let came =
      whole
      ∙ ap (λ (l : List (List ℕ)). join (take done l)) (Reach-InOrder r).begun
      ∙ ap join (take-take done sent)
      ∙ join-frames done os sent s e in
    let d =
      read_all-Delivered chunks new_connection ps [] nothing_yet
        (ap decode came ∙ decode-frames_end ps (packets-IsValid done os s)) in
    record {
      carried =
          subst (λ (l : List Packet). Carries l (take done os)) (sym d.handed)
            (Carries-packets done os s);
      no_rest = d.kept;
      stays_open = d.stays_open;
    }
