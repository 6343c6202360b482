-- ===== src/Net/Delivery/Examples.antt =====
-- Two messages are sent, of which the first is written and read in two pieces.
use cpp_game_room.Base.{ℕ, refl, Option, none, some, List, [], ◌∷◌, take, arith}
use cpp_game_room.Net.Packet.{append_uint32_be}
use cpp_game_room.Net.Codec.{encode}
use cpp_game_room.Net.Codec.Framing.{frame}
use cpp_game_room.Net.Connection.{new_connection}
use cpp_game_room.Net.Connection.Reading.{read_all}
use cpp_game_room.Net.Connection.Examples.{heartbeat, answer, history}
use cpp_game_room.Net.Protocol.{build}
use cpp_game_room.Net.Delivery.{Outgoing, AllSendable, Encodes, Arrived, Reach-Arrived}

abbrev one_byte : List ℕ → Option ℕ
one_byte (n ∷ []) = some n
one_byte _ = none

abbrev no_byte : List ℕ → Option (Unit {0})
no_byte [] = some tt
no_byte _ = none

abbrev messages : List Outgoing
messages =
    record {
      Message = ℕ;
      proto = record { serialize = λ n. n ∷ []; parse_from = one_byte };
      msg_id = 1003;
      message = 7;
      seq = 1;
    }
    ∷ record {
      Message = Unit {0};
      proto = record { serialize = λ _. []; parse_from = no_byte };
      msg_id = 1004;
      message = tt;
      seq = 2;
    }
    ∷ []

messages-AllSendable : AllSendable messages
messages-AllSendable = (
  record {
    reads_back = refl;
    of_bytes = omega arith;
    fits = omega arith;
    id_fits = omega arith;
    seq_fits = omega arith;
  },
  (
    record {
      reads_back = refl;
      of_bytes = tt;
      fits = omega arith;
      id_fits = omega arith;
      seq_fits = omega arith;
    },
    tt,
  ),
)

messages-Encodes : Encodes messages (frame heartbeat ∷ frame answer ∷ [])
unfolding encode build append_uint32_be
messages-Encodes = (refl, (refl, tt))

abbrev pieces : List (List ℕ)
pieces = (0 ∷ 0 ∷ 0 ∷ 9 ∷ 0 ∷ 0 ∷ 3 ∷ []) ∷ (235 ∷ 0 ∷ 0 ∷ 0 ∷ 1 ∷ 7 ∷ []) ∷ []

Reach-Arrived_example :
    Arrived (take 1 messages) (read_all pieces new_connection).0 (read_all pieces new_connection).1
unfolding append_uint32_be
Reach-Arrived_example =
    Reach-Arrived messages _ 1 _ _ pieces messages-AllSendable messages-Encodes history refl
