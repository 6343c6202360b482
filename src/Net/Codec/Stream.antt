-- ===== src/Net/Codec/Stream.antt =====
-- Codec::Decode over a stream that arrives in pieces.
use cpp_game_room.Base.{
  ℕ, zero, suc, ◌+◌, ◌-◌, ◌≤◌, ◌<◌, ◌≡◌, ◌≢◌, refl, sym, ap, ◌∙◌, ◌⊎◌, inl, inr, List, [], ◌∷◌,
  ◌++◌, arith, length, length-append, take, drop, get_or-append, take-append_le, drop-append_le,
  length-drop, All,
}
use mathlib.Core.List.{append_assoc, append-nil}
use cpp_game_room.Net.Packet.{Packet, read_uint32_be, max_packet_length}
use cpp_game_room.Net.Codec.{
  Round, wait, throw, take_packet, decode_round, Decoded, packets, invalid_length, out_of_fuel,
  decode_loop, decode,
}
use cpp_game_room.Net.Codec.Framing.{
  after, decode_round-shorter, decode_round-RoundView, RoundView, waits, throws, takes,
}

pub after-after : (ps qs : List Packet) (d : Decoded) → after ps (after qs d) ≡ after (ps ++ qs) d
after-after ps qs (packets rs r) =
    ap (λ (l : List Packet). packets l r) (sym (append_assoc ps qs rs))
after-after ps qs (invalid_length r) = refl
after-after ps qs out_of_fuel = refl

pub after-nil : (d : Decoded) → after [] d ≡ d
after-nil (packets rs r) = refl
after-nil (invalid_length r) = refl
after-nil out_of_fuel = refl

Round-cases :
    (r : Round)
    → (r ≡ wait) ⊎ (r ≡ throw) ⊎ ((p : Packet) × (rest : List ℕ) × (r ≡ take_packet p rest))
Round-cases wait = inl refl
Round-cases throw = inr (inl refl)
Round-cases (take_packet p rest) = inr (inr (p, rest, refl))

-- What is already decoded stands in front.
decode_loop-after :
    (f : ℕ) (done : List Packet) (buffer : List ℕ)
    → decode_loop f done buffer ≡ after done (decode_loop f [] buffer)
unfolding decode_loop
decode_loop-after zero done buffer = refl
decode_loop-after (suc f) done buffer = elim (Round-cases (decode_round buffer)) [
  | inl e ↦ rw (e, decode_loop) (ap (λ (l : List Packet). packets l buffer) (sym (append-nil done)))
  | inr (inl e) ↦ rw (e, decode_loop)
  | inr (inr (p, rest, e)) ↦
      rw (e, decode_loop)
        (decode_loop-after f (done ++ p ∷ []) rest
          ∙ sym (after-after done (p ∷ []) (decode_loop f [] rest))
          ∙ ap (after done) (sym (decode_loop-after f (p ∷ []) rest)))
]

-- The fuel does not matter while it suffices.
decode_loop-fuel :
    (f g : ℕ) (buffer : List ℕ)
    → length buffer < f
    → length buffer < g
    → decode_loop f [] buffer ≡ decode_loop g [] buffer
unfolding decode_loop
decode_loop-fuel zero g buffer h k = elim h [ ]
decode_loop-fuel (suc f) zero buffer h k = elim k [ ]
decode_loop-fuel (suc f) (suc g) buffer h k = elim (Round-cases (decode_round buffer)) [
  | inl e ↦ rw (e, decode_loop)
  | inr (inl e) ↦ rw (e, decode_loop)
  | inr (inr (p, rest, e)) ↦
      let shorter = decode_round-shorter buffer p rest e in
      rw (e, decode_loop)
        (decode_loop-after f (p ∷ []) rest
          ∙ ap (after (p ∷ [])) (decode_loop-fuel f g rest (omega arith) (omega arith))
          ∙ sym (decode_loop-after g (p ∷ []) rest))
]

pub decode-wait : (buffer : List ℕ) → decode_round buffer ≡ wait → decode buffer ≡ packets [] buffer
unfolding decode
decode-wait buffer e = rw (e, decode_loop)

pub decode-throw :
    (buffer : List ℕ) → decode_round buffer ≡ throw → decode buffer ≡ invalid_length buffer
unfolding decode
decode-throw buffer e = rw (e, decode_loop)

pub decode-take :
    (buffer : List ℕ) (p : Packet) (rest : List ℕ)
    → decode_round buffer ≡ take_packet p rest
    → decode buffer ≡ after (p ∷ []) (decode rest)
unfolding decode
decode-take buffer p rest e =
    let shorter = decode_round-shorter buffer p rest e in
    rw (e, decode_loop)
      (decode_loop-after (length buffer) (p ∷ []) rest
        ∙ ap (after (p ∷ []))
            (decode_loop-fuel (length buffer) (suc (length rest)) rest (omega arith) (omega arith)))

-- Induction along the rounds of a run.
pub decode_induction {ℓ} :
    (P : List ℕ → Type ℓ)
    → ((buffer : List ℕ) → decode_round buffer ≡ wait → P buffer)
    → ((buffer : List ℕ) → decode_round buffer ≡ throw → P buffer)
    → ((buffer : List ℕ) (p : Packet) (rest : List ℕ)
        → decode_round buffer ≡ take_packet p rest
        → P rest
        → P buffer)
    → (buffer : List ℕ) → P buffer
decode_induction P on_wait on_throw on_take buffer = go (suc (length buffer)) buffer (omega arith)
  where
    go : (f : ℕ) (b : List ℕ) → length b < f → P b
    go zero b h = elim h [ ]
    go (suc f) b h = elim (Round-cases (decode_round b)) [
      | inl e ↦ on_wait b e
      | inr (inl e) ↦ on_throw b e
      | inr (inr (p, rest, e)) ↦
          let shorter = decode_round-shorter b p rest e in
          on_take b p rest e (go f rest (omega arith))
    ]

read_uint32_be-append :
    (i : ℕ) (buffer more : List ℕ)
    → i + 4 ≤ length buffer
    → read_uint32_be (buffer ++ more) i ≡ read_uint32_be buffer i
unfolding read_uint32_be
read_uint32_be-append i buffer more h = ground (
  arith,
  get_or-append i buffer more 0,
  get_or-append (i + 1) buffer more 0,
  get_or-append (i + 2) buffer more 0,
  get_or-append (i + 3) buffer more 0,
)

body-append :
    (n : ℕ) (buffer more : List ℕ)
    → 12 ≤ length buffer
    → n + 12 ≤ length buffer
    → take n (drop 12 (buffer ++ more)) ≡ take n (drop 12 buffer)
body-append n buffer more h k =
    rw (drop-append_le 12 buffer more h)
      (take-append_le n (drop 12 buffer) more (omega (arith, length-drop 12 buffer)))

-- Bytes that arrive later do not change a round that took a packet or threw.
decode_round-append :
    (buffer more : List ℕ)
    → decode_round buffer ≢ wait
    → decode_round (buffer ++ more) ≡ elim (decode_round buffer) [
      | wait ↦ wait
      | throw ↦ throw
      | take_packet p rest ↦ take_packet p (rest ++ more)
    ]
unfolding decode_round
decode_round-append buffer more h =
    let len = read_uint32_be buffer 0 in
    ground (
      arith,
      length-append buffer more,
      read_uint32_be-append 0 buffer more,
      read_uint32_be-append 4 buffer more,
      read_uint32_be-append 8 buffer more,
      body-append (len - 8) buffer more,
      drop-append_le (4 + len) buffer more,
    )

decode_round-take_append :
    (buffer more : List ℕ) (p : Packet) (rest : List ℕ)
    → decode_round buffer ≡ take_packet p rest
    → decode_round (buffer ++ more) ≡ take_packet p (rest ++ more)
decode_round-take_append buffer more p rest e = decode_round-append buffer more (λ w. cc) ∙ rw e

decode_round-throw_append :
    (buffer more : List ℕ) → decode_round buffer ≡ throw → decode_round (buffer ++ more) ≡ throw
decode_round-throw_append buffer more e = decode_round-append buffer more (λ w. cc) ∙ rw e

abbrev pub then_decode : Decoded → List ℕ → Decoded
then_decode (packets ps rest) more = after ps (decode (rest ++ more))
then_decode (invalid_length rest) more = invalid_length (rest ++ more)
then_decode out_of_fuel more = out_of_fuel

after-then_decode :
    (ps : List Packet) (d : Decoded) (more : List ℕ)
    → after ps (then_decode d more) ≡ then_decode (after ps d) more
after-then_decode ps (packets qs rest) more = after-after ps qs (decode (rest ++ more))
after-then_decode ps (invalid_length rest) more = refl
after-then_decode ps out_of_fuel more = refl

-- The run in one piece, from the run over the first one. A rejection leaves no packets.
pub decode-append :
    (buffer more : List ℕ) → decode (buffer ++ more) ≡ then_decode (decode buffer) more
decode-append buffer more =
    decode_induction (λ b. decode (b ++ more) ≡ then_decode (decode b) more)
      (λ b e. rw (decode-wait b e) (sym (after-nil (decode (b ++ more)))))
      (λ b e. rw (decode-throw b e) (decode-throw (b ++ more) (decode_round-throw_append b more e)))
      (λ b p rest e ih. rw (decode-take b p rest e) (
        decode-take (b ++ more) p (rest ++ more) (decode_round-take_append b more p rest e)
        ∙ ap (after (p ∷ [])) ih
        ∙ after-then_decode (p ∷ []) (decode rest) more))
      buffer

abbrev pub Bounded : Decoded → Type 0
Bounded (packets ps rest) =
    (length rest < max_packet_length + 4)
    × All (λ (p : Packet). (8 ≤ p.packet_length) × (p.packet_length ≤ max_packet_length)) ps
Bounded (invalid_length rest) = 12 ≤ length rest
Bounded out_of_fuel = ⊥

-- What a decoding keeps for the next read is shorter than the longest frame and every packet has
-- a length within the limits; a rejection leaves at least a header; the loop ends.
pub decode-Bounded : (buffer : List ℕ) → Bounded (decode buffer)
decode-Bounded =
    decode_induction (λ b. Bounded (decode b))
      (λ b e. rw (decode-wait b e) (wait-Bounded b (decode_round b) (decode_round-RoundView b) e))
      (λ b e. rw (decode-throw b e) (throw-Bounded b (decode_round b) (decode_round-RoundView b) e))
      (λ b p rest e ih.
        rw (decode-take b p rest e)
          (take-Bounded b p rest (decode rest) (decode_round b) (decode_round-RoundView b) e ih))
  where
    wait-Bounded : (b : List ℕ) (r : Round) → RoundView b r → r ≡ wait → Bounded (packets [] b)
    wait-Bounded b wait (waits h) e = (omega arith, tt)
    wait-Bounded b throw v e = cc
    wait-Bounded b (take_packet p rest) v e = cc

    throw-Bounded : (b : List ℕ) (r : Round) → RoundView b r → r ≡ throw → 12 ≤ length b
    throw-Bounded b wait v e = cc
    throw-Bounded b throw (throws h k) e = h
    throw-Bounded b (take_packet p rest) v e = cc

    take-Bounded :
        (b : List ℕ) (p : Packet) (rest : List ℕ) (d : Decoded) (r : Round)
        → RoundView b r
        → r ≡ take_packet p rest
        → Bounded d
        → Bounded (after (p ∷ []) d)
    take-Bounded b p rest (invalid_length r) s v e h = h
    take-Bounded b p rest out_of_fuel s v e h = h
    take-Bounded b p rest (packets ps r) wait v e h = cc
    take-Bounded b p rest (packets ps r) throw v e h = cc
    take-Bounded b p rest (packets ps r) (take_packet q t) (takes _ _ _ low high _ _ _ _ _ _) e h =
        (h.0, ((ground arith, ground arith), h.1))

-- What decoding gives with the frames of the packets `ps` in front, against what it gives without
-- them: the packets stand in front where it goes on to the end, and are lost where it throws.
pub data Preceded (ps : List Packet) : Decoded → Decoded → Type 0 where
  accepted :
      (qs : List Packet) (rest : List ℕ) → Preceded ps (packets qs rest) (packets (ps ++ qs) rest)
  rejected : (rest : List ℕ) → Preceded ps (invalid_length rest) (invalid_length rest)

pub after-Preceded : (ps : List Packet) (d : Decoded) → Bounded d → Preceded ps d (after ps d)
after-Preceded ps (packets qs rest) b = Preceded.accepted qs rest
after-Preceded ps (invalid_length rest) b = Preceded.rejected rest
after-Preceded ps out_of_fuel b = absurd b

-- What decoding all gives, from what decoding the first piece gave.
abbrev pub InPieces : List ℕ → Decoded → Decoded → Type 0
InPieces more (packets ps kept) whole = Preceded ps (decode (kept ++ more)) whole
InPieces more (invalid_length rest) whole = whole ≡ invalid_length (rest ++ more)
InPieces more out_of_fuel whole = ⊥

then_decode-InPieces :
    (more : List ℕ) (d : Decoded) → Bounded d → InPieces more d (then_decode d more)
then_decode-InPieces more (packets ps kept) b =
    after-Preceded ps (decode (kept ++ more)) (decode-Bounded (kept ++ more))
then_decode-InPieces more (invalid_length rest) b = refl
then_decode-InPieces more out_of_fuel b = b

-- Bytes that come in two pieces, the bytes left by the first decoding kept in front of the second
-- piece, against one decoding of all: if both decodings of the pieces go to their end, the one
-- decoding gives the packets of the first and then those of the second, and leaves what the
-- second leaves; if the second is rejected, so is the one decoding, which leaves the same bytes
-- and gives no packets, also not those of the first piece; if the first is rejected, so is the
-- one decoding, which leaves the same bytes and the second piece behind them. There is no other
-- case.
pub decode-InPieces :
    (buffer more : List ℕ) → InPieces more (decode buffer) (decode (buffer ++ more))
decode-InPieces buffer more =
    rw (decode-append buffer more)
      (then_decode-InPieces more (decode buffer) (decode-Bounded buffer))
