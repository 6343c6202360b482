-- ===== src/Net/Packet.antt =====
-- src/net/packet.h and packet.cpp: the packet, its limits and the big-endian numbers of its header.
-- A byte is a number below 256, an `uint32_t` one below 2^32.
use cpp_game_room.Base.{ℕ, ◌+◌, ◌*◌, ◌/◌, ◌%◌, ◌^◌, ◌<◌, List, [], ◌∷◌, ◌++◌, arith, get_or, All}

-- The header's length: length, msg_id and seq.
abbrev pub packet_header_size : ℕ
packet_header_size = 12

-- What `length` counts besides the body: msg_id and seq.
abbrev pub packet_meta_size : ℕ
packet_meta_size = 8

abbrev pub max_packet_length : ℕ
max_packet_length = 1024 * 1024

pub record Packet : Type 0 where
  pub packet_length : ℕ
  pub msg_id : ℕ
  pub seq : ℕ
  pub body : List ℕ

abbrev pub IsByte : ℕ → Type 0
IsByte b = b < 256

abbrev pub Bytes : List ℕ → Type 0
Bytes = All IsByte

-- The four bytes at an offset. They fill disjoint bits, so `|` is written `+`.
unfoldable pub read_uint32_be : List ℕ → ℕ → ℕ
read_uint32_be bytes i =
    get_or bytes i 0 * 2 ^ 24
    + get_or bytes (i + 1) 0 * 2 ^ 16
    + get_or bytes (i + 2) 0 * 2 ^ 8
    + get_or bytes (i + 3) 0

-- `x & 0xFF` is the remainder by 256.
unfoldable pub append_uint32_be : List ℕ → ℕ → List ℕ
append_uint32_be out value =
    out ++ value / 2 ^ 24 % 256 ∷ value / 2 ^ 16 % 256 ∷ value / 2 ^ 8 % 256 ∷ value % 256 ∷ []

-- Writing a number gives four bytes.
pub append_uint32_be-Bytes : (value : ℕ) → Bytes (append_uint32_be [] value)
unfolding append_uint32_be
append_uint32_be-Bytes value = omega arith
