-- ===== src/Net/Protocol.antt =====
-- src/protocol: message ids, and packets built from messages. Protobuf's SerializeToString and
-- ParseFromString of a type of messages are a parameter.
use cpp_game_room.Base.{ℕ, ◌+◌, ◌%◌, ◌^◌, Option, List, length}
use cpp_game_room.Net.Packet.{Packet, packet_meta_size}

pub record Protobuf (M : Type 0) : Type 0 where
  pub serialize : M → List ℕ
  pub parse_from : List ℕ → Option M

-- ProtoHelper::Parse into a message that is there.
unfoldable pub parse : {M : Type 0} → Protobuf M → Packet → Option M
parse proto packet = proto.parse_from packet.body

-- ProtoHelper::Build, with the cast to uint32_t.
unfoldable pub build : {M : Type 0} → Protobuf M → ℕ → M → ℕ → Packet
build proto msg_id message seq =
    let body = proto.serialize message in
    record {
      packet_length = (packet_meta_size + length body) % 2 ^ 32;
      msg_id = msg_id;
      seq = seq;
      body = body;
    }

-- The messages to clients of enum MessageId, with their ids.
pub data ResponseKind : Type 0 where
  login_resp heartbeat_resp reconnect_resp match_resp match_success_notify match_cancel_resp
        ready_notify room_state_notify leave_room_resp player_leave_room_notify game_state_notify
        game_over_notify rank_resp :
      ResponseKind

abbrev pub response_id : ResponseKind → ℕ
response_id login_resp = 1002
response_id heartbeat_resp = 1004
response_id reconnect_resp = 1006
response_id match_resp = 2002
response_id match_success_notify = 2003
response_id match_cancel_resp = 2005
response_id ready_notify = 3002
response_id room_state_notify = 3005
response_id leave_room_resp = 3007
response_id player_leave_room_notify = 3008
response_id game_state_notify = 4002
response_id game_over_notify = 4003
response_id rank_resp = 5002
