-- ===== src/Net/Codec/RoundTrip.antt =====
-- Codec::Encode and Codec::Decode undo one another.
use mathlib.Core.List.{append_assoc}
use mathlib.Core.Path.{subst₂}
use cpp_game_room.Base.{
  ℕ, zero, suc, ◌+◌, ◌-◌, ◌≤◌, ◌<◌, ◌≡◌, refl, sym, ap, ◌∙◌, ap₂, Option, none, some, List, [], ◌∷◌,
  ◌++◌, arith, length, take, drop, get_or, length-append, take_all, drop_all, drop-drop,
  take-append-drop, length-take, length-drop, All, All-drop, All-take,
}
use cpp_game_room.Net.Packet.{
  Packet, Bytes, IsByte, max_packet_length, read_uint32_be, append_uint32_be,
}
use cpp_game_room.Net.Codec.{
  Round, wait, throw, take_packet, decode_round, Decoded, packets, invalid_length, out_of_fuel,
  decode, encode,
}
use cpp_game_room.Net.Codec.Framing.{
  IsValid, frame, frames, after, RoundView, takes, decode_round-RoundView,
}
use cpp_game_room.Net.Codec.Stream.{
  decode-wait, decode-throw, decode-take, decode_induction, after-after, after-nil, Preceded,
  after-Preceded, decode-Bounded,
}

get_or-lt : (buffer : List ℕ) (i : ℕ) → Bytes buffer → get_or buffer i 0 < 256
get_or-lt [] i w = omega arith
get_or-lt (b ∷ bs) zero w = w.0
get_or-lt (b ∷ bs) (suc i) w = get_or-lt bs i w.1

read_uint32_be-lt : (buffer : List ℕ) (i : ℕ) → Bytes buffer → read_uint32_be buffer i < 4294967296
unfolding read_uint32_be
read_uint32_be-lt buffer i w = omega (
  arith,
  get_or-lt buffer i w,
  get_or-lt buffer (i + 1) w,
  get_or-lt buffer (i + 2) w,
  get_or-lt buffer (i + 3) w,
)

-- Reading four written bytes gives the number back.
pub read_uint32_be-append_uint32_be :
    (value : ℕ) (rest : List ℕ)
    → value < 4294967296
    → read_uint32_be (append_uint32_be [] value ++ rest) 0 ≡ value
unfolding read_uint32_be append_uint32_be
read_uint32_be-append_uint32_be value rest h = omega arith

-- Writing the number that four bytes stand for gives the bytes back.
four_bytes :
    (a b c d : ℕ)
    → a < 256
    → b < 256
    → c < 256
    → d < 256
    → append_uint32_be [] (read_uint32_be (a ∷ b ∷ c ∷ d ∷ []) 0) ≡ a ∷ b ∷ c ∷ d ∷ []
unfolding read_uint32_be append_uint32_be
four_bytes a b c d ha hb hc hd = ground arith

-- The header and the parts of a valid frame, whatever follows it.
module _ (p : Packet) (rest : List ℕ) (v : IsValid p) where
  read-frame :
      (read_uint32_be (frame p ++ rest) 0 ≡ p.packet_length)
      × (read_uint32_be (frame p ++ rest) 4 ≡ p.msg_id)
      × (read_uint32_be (frame p ++ rest) 8 ≡ p.seq)
  unfolding read_uint32_be append_uint32_be
  read-frame = (omega arith, omega arith, omega arith)

  length-frame : length (frame p ++ rest) ≡ 4 + p.packet_length + length rest
  unfolding append_uint32_be
  length-frame = omega (arith, length-append p.body rest)

  body-frame : take (p.packet_length - 8) (drop 12 (frame p ++ rest)) ≡ p.body
  unfolding append_uint32_be
  body-frame =
      let e : p.packet_length - 8 ≡ length p.body = omega arith in rw e (take_all p.body rest)

  drop-frame : drop (4 + p.packet_length) (frame p ++ rest) ≡ rest
  unfolding append_uint32_be
  drop-frame =
      let e : 4 + p.packet_length
          ≡ suc (suc (suc (suc (suc (suc (suc (suc (suc (suc (suc (suc (length p.body)))))))))))) =
        omega arith in
      rw e (drop_all p.body rest)

  -- A round takes exactly the frame.
  pub decode_round-frame : decode_round (frame p ++ rest) ≡ take_packet p rest
  unfolding decode_round
  decode_round-frame = ground (arith, read-frame, length-frame, body-frame, drop-frame)

-- The header's numbers, written again, give the header's bytes.
header-take :
    (buffer : List ℕ)
    → 12 ≤ length buffer
    → Bytes buffer
    → append_uint32_be
        (append_uint32_be (append_uint32_be [] (read_uint32_be buffer 0)) (read_uint32_be buffer 4))
        (read_uint32_be buffer 8)
      ≡ take 12 buffer
unfolding append_uint32_be read_uint32_be
header-take (a ∷ b ∷ c ∷ d ∷ e ∷ f ∷ g ∷ h ∷ i ∷ j ∷ k ∷ l ∷ rest) long w =
    ap₂ (◌++◌)
      (ap₂ (◌++◌) (four_bytes a b c d w.0 w.1.0 w.1.1.0 w.1.1.1.0)
        (four_bytes e f g h (omega arith) (omega arith) (omega arith) (omega arith)))
      (four_bytes i j k l (omega arith) (omega arith) (omega arith) (omega arith))
header-take _ long w = absurd (omega arith)

-- A packet read from the front of a buffer of bytes is valid, and its frame was there.
module _ (buffer : List ℕ) (p : Packet) (rest : List ℕ) (long : 12 ≤ length buffer)
    (low : 8 ≤ p.packet_length) (high : p.packet_length ≤ max_packet_length)
    (whole : p.packet_length + 4 ≤ length buffer) (n0 : p.packet_length ≡ read_uint32_be buffer 0)
    (n4 : p.msg_id ≡ read_uint32_be buffer 4) (n8 : p.seq ≡ read_uint32_be buffer 8)
    (nb : p.body ≡ take (p.packet_length - 8) (drop 12 buffer))
    (nr : rest ≡ drop (4 + p.packet_length) buffer) (w : Bytes buffer) where
  IsValid-parts : IsValid p
  IsValid-parts = record {
    counts = omega (
      arith,
      ap length nb,
      length-take (p.packet_length - 8) (drop 12 buffer),
      length-drop 12 buffer,
    );
    fits = high;
    id_fits = rw n4 (read_uint32_be-lt buffer 4 w);
    seq_fits = rw n8 (read_uint32_be-lt buffer 8 w);
    of_bytes =
        rw nb
          (All-take IsByte (p.packet_length - 8) (drop 12 buffer) (All-drop IsByte 12 buffer w));
  }

  frame-parts : buffer ≡ frame p ++ rest
  frame-parts =
      let e : 4 + p.packet_length ≡ 12 + (p.packet_length - 8) = omega arith in
      sym (
        rw (n4, n8, nb, nr, e, n0, header-take buffer long w, drop-drop, append_assoc)
          (rw take-append-drop (take-append-drop 12 buffer)))

abbrev taken : Packet → Round → Packet
taken p (take_packet q r) = q
taken p _ = p

abbrev left : List ℕ → Round → List ℕ
left rest (take_packet q r) = r
left rest _ = rest

-- The other way: what a round takes off a buffer of bytes is a valid packet and its frame.
frame-take :
    (buffer : List ℕ) (p : Packet) (rest : List ℕ)
    → decode_round buffer ≡ take_packet p rest
    → Bytes buffer
    → IsValid p × (buffer ≡ frame p ++ rest) × Bytes rest
frame-take buffer p rest e w = go (decode_round buffer) (decode_round-RoundView buffer) e
  where
    go :
        (r : Round)
        → RoundView buffer r
        → r ≡ take_packet p rest
        → IsValid p × (buffer ≡ frame p ++ rest) × Bytes rest
    go wait v e = cc
    go throw v e = cc
    go (take_packet q r) (takes _ _ h12 low high whole n0 n4 n8 nb nr) e =
        subst₂ (λ a b. IsValid a × (buffer ≡ frame a ++ b) × Bytes b) (ap (taken p) e)
          (ap (left rest) e)
          (
            IsValid-parts buffer q r h12 low high whole n0 n4 n8 nb nr w,
            frame-parts buffer q r h12 low high whole n0 n4 n8 nb nr w,
            rw nr (All-drop IsByte (4 + q.packet_length) buffer w),
          )

-- Encoded packets, one after the other and whatever bytes follow, are decoded in order.
pub decode-frames :
    (ps : List Packet) (rest : List ℕ)
    → All IsValid ps
    → decode (frames ps ++ rest) ≡ after ps (decode rest)
decode-frames [] rest v = sym (after-nil (decode rest))
decode-frames (p ∷ ps) rest v = rw (append_assoc (frame p) (frames ps) rest) (
    decode-take _ p (frames ps ++ rest) (decode_round-frame p (frames ps ++ rest) v.0)
    ∙ ap (after (p ∷ [])) (decode-frames ps rest v.1)
    ∙ after-after (p ∷ []) ps (decode rest))

-- Encode writes the frame of every valid packet.
pub encode-frame : (p : Packet) → IsValid p → encode p ≡ some (frame p)
unfolding encode
encode-frame p v = let e = v.counts in ground arith

-- What holds of a run on a buffer of bytes.
abbrev pub Explains : List ℕ → Decoded → Type 0
Explains buffer (packets ps rest) =
    All IsValid ps × (buffer ≡ frames ps ++ rest) × (decode_round rest ≡ wait)
Explains buffer (invalid_length rest) =
    (ps : List Packet) × All IsValid ps × (buffer ≡ frames ps ++ rest) × (decode_round rest ≡ throw)
Explains buffer out_of_fuel = ⊥

Explains-take :
    (buffer rest : List ℕ) (p : Packet) (d : Decoded)
    → IsValid p
    → buffer ≡ frame p ++ rest
    → Explains rest d
    → Explains buffer (after (p ∷ []) d)
Explains-take buffer rest p (packets ps r) v e x =
    ((v, x.0), e ∙ rw x.1 (sym (append_assoc (frame p) (frames ps) r)), x.2)
Explains-take buffer rest p (invalid_length r) v e x =
    (p ∷ x.0, (v, x.1), e ∙ rw x.2 (sym (append_assoc (frame p) (frames x.0) r)), x.3)
Explains-take buffer rest p out_of_fuel v e x = x

-- Decoding a buffer of bytes yields valid packets whose frames, followed by the bytes left, are
-- exactly the buffer; what is left is an incomplete frame, or at a rejection a complete header
-- whose length is out of the limits. The loop always ends in one of these two ways.
pub decode-Explains : (buffer : List ℕ) → Bytes buffer → Explains buffer (decode buffer)
decode-Explains =
    decode_induction (λ b. Bytes b → Explains b (decode b))
      (λ b e w. rw (decode-wait b e) (tt, refl, e))
      (λ b e w. rw (decode-throw b e) ([], tt, refl, e))
      (λ b p rest e ih w.
        let t = frame-take b p rest e w in
        rw (decode-take b p rest e) (Explains-take b rest p (decode rest) t.0 t.1 (ih t.2)))

-- The encodings of several packets, as the connection writes them one after the other.
unfoldable pub encode_all : List Packet → Option (List ℕ)
encode_all [] = some []
encode_all (p ∷ ps) = elim (encode p) [
  | none ↦ none
  | some bytes ↦ elim (encode_all ps) [ none ↦ none | some more ↦ some (bytes ++ more) ]
]

encode_all-frames : (ps : List Packet) → All IsValid ps → encode_all ps ≡ some (frames ps)
unfolding encode_all
encode_all-frames [] v = refl
encode_all-frames (p ∷ ps) v = ground (arith, encode-frame p v.0, encode_all-frames ps v.1)

-- Valid packets are all encoded. If the bytes that stand behind their encodings decode to
-- packets, then decoding all gives the packets that were encoded, in order, and then these, with
-- the same bytes left; if the bytes behind are rejected, decoding all is rejected with the same
-- bytes left, and gives no packets. There is no other case.
pub decode-encode_all :
    (ps : List Packet) (rest : List ℕ)
    → All IsValid ps
    → (bytes : List ℕ) × (encode_all ps ≡ some bytes)
      × Preceded ps (decode rest) (decode (bytes ++ rest))
decode-encode_all ps rest v = (
  frames ps,
  encode_all-frames ps v,
  rw (decode-frames ps rest v) (after-Preceded ps (decode rest) (decode-Bounded rest)),
)
