-- ===== src/Net/Connection/Reading.antt =====
-- The messages of a stream that comes in pieces.
use cpp_game_room.Base.{ℕ, ◌≡◌, refl, sym, ap, ◌∙◌, some, List, [], ◌∷◌, ◌++◌}
use mathlib.Core.List.{append_assoc, append-nil}
use cpp_game_room.Net.Packet.{Packet}
use cpp_game_room.Net.Codec.{Decoded, packets, invalid_length, out_of_fuel, decode}
use cpp_game_room.Net.Codec.Framing.{after}
use cpp_game_room.Net.Codec.Stream.{
  decode-wait, decode-throw, decode-take, decode_induction, then_decode, decode-append,
}
use cpp_game_room.Net.Connection.{
  TcpConnection, Effect, start_read, start_write, message, closed, post_close, shut_socket,
  messages, after_decode, on_read,
}

-- The handlers of reads that succeed, one after the other.
abbrev pub read_all : List (List ℕ) → TcpConnection → TcpConnection × List Effect
read_all [] c = (c, [])
read_all (bytes ∷ rest) c =
    let (c', effects) = on_read (some bytes) c in
    let (c'', more) = read_all rest c' in (c'', effects ++ more)

abbrev pub join : List (List ℕ) → List ℕ
join [] = []
join (bytes ∷ rest) = bytes ++ join rest

-- The packets that are handed to the message callback, and whether the connection is closed.
abbrev pub delivered : List Effect → List Packet
delivered [] = []
delivered (message p ∷ rest) = p ∷ delivered rest
delivered (start_read ∷ rest) = delivered rest
delivered (start_write bytes ∷ rest) = delivered rest
delivered (closed ∷ rest) = delivered rest
delivered (post_close ∷ rest) = delivered rest
delivered (shut_socket ∷ rest) = delivered rest

abbrev pub Stays : List Effect → Type 0
Stays [] = Unit {0}
Stays (post_close ∷ rest) = ⊥
Stays (closed ∷ rest) = ⊥
Stays (e ∷ rest) = Stays rest

-- What is left of a decoding holds no packet of its own.
abbrev Settled : Decoded → Type 0
Settled (packets ps rest) = decode rest ≡ packets [] rest
Settled _ = Unit {0}

after-Settled : (ps : List Packet) (d : Decoded) → Settled d → Settled (after ps d)
after-Settled ps (packets qs rest) s = s
after-Settled ps (invalid_length rest) s = s
after-Settled ps out_of_fuel s = s

decode-Settled : (b : List ℕ) → Settled (decode b)
decode-Settled =
    decode_induction (λ b. Settled (decode b)) (λ b e. rw (decode-wait b e) (decode-wait b e))
      (λ b e. rw (decode-throw b e) tt)
      (λ b p rest e ih. rw (decode-take b p rest e) (after-Settled (p ∷ []) (decode rest) ih))

delivered-append : (xs ys : List Effect) → delivered (xs ++ ys) ≡ delivered xs ++ delivered ys
delivered-append [] ys = refl
delivered-append (message p ∷ xs) ys = ap (◌∷◌ p) (delivered-append xs ys)
delivered-append (start_write b ∷ xs) ys = delivered-append xs ys
delivered-append (start_read ∷ xs) ys = delivered-append xs ys
delivered-append (closed ∷ xs) ys = delivered-append xs ys
delivered-append (post_close ∷ xs) ys = delivered-append xs ys
delivered-append (shut_socket ∷ xs) ys = delivered-append xs ys

delivered-messages : (ps : List Packet) → delivered (messages ps ++ start_read ∷ []) ≡ ps
delivered-messages [] = refl
delivered-messages (p ∷ ps) = ap (◌∷◌ p) (delivered-messages ps)

-- A decoding that goes through goes through for every beginning of the stream.
data Split (ps : List Packet) (rest more : List ℕ) : Decoded → Type 0 where
  split :
      (qs rs : List Packet) (kept : List ℕ)
      → qs ++ rs ≡ ps
      → decode (kept ++ more) ≡ packets rs rest
      → Split ps rest more (packets qs kept)

packets-inj :
    {ps qs : List Packet} {r s : List ℕ} → packets ps r ≡ packets qs s → (ps ≡ qs) × (r ≡ s)
packets-inj e = (cc e, cc e)

after-Split :
    (ps qs : List Packet) (kept rest more : List ℕ) (d : Decoded)
    → decode (kept ++ more) ≡ d
    → after qs d ≡ packets ps rest
    → Split ps rest more (packets qs kept)
after-Split ps qs kept rest more (packets rs r) e h =
    split qs rs kept (packets-inj h).0 (e ∙ ap (packets rs) (packets-inj h).1)
after-Split ps qs kept rest more (invalid_length r) e h = absurd (cc h)
after-Split ps qs kept rest more out_of_fuel e h = absurd (cc h)

Split-decode :
    (ps : List Packet) (rest more : List ℕ) (d : Decoded)
    → then_decode d more ≡ packets ps rest
    → Split ps rest more d
Split-decode ps rest more (packets qs kept) e =
    after-Split ps qs kept rest more (decode (kept ++ more)) refl e
Split-decode ps rest more (invalid_length r) e = absurd (cc e)
Split-decode ps rest more out_of_fuel e = absurd (cc e)

Stays-append : (xs ys : List Effect) → Stays xs → Stays ys → Stays (xs ++ ys)
Stays-append [] ys h k = k
Stays-append (message p ∷ xs) ys h k = Stays-append xs ys h k
Stays-append (start_write b ∷ xs) ys h k = Stays-append xs ys h k
Stays-append (start_read ∷ xs) ys h k = Stays-append xs ys h k
Stays-append (closed ∷ xs) ys h k = elim h [ ]
Stays-append (post_close ∷ xs) ys h k = elim h [ ]
Stays-append (shut_socket ∷ xs) ys h k = Stays-append xs ys h k

Stays-messages : (ps : List Packet) → Stays (messages ps ++ start_read ∷ [])
Stays-messages [] = tt
Stays-messages (p ∷ ps) = Stays-messages ps

-- What reads have done: the packets handed on, the bytes kept, and that the connection goes on.
pub record Delivered (ps : List Packet) (rest : List ℕ) (s : TcpConnection × List Effect)
    : Type 0 where
  pub handed : delivered s.1 ≡ ps
  pub kept : s.0.read_buffer ≡ rest
  pub stays_open : Stays s.1

abbrev then_read : List (List ℕ) → TcpConnection × List Effect → TcpConnection × List Effect
then_read chunks (c, effects) = let (c', more) = read_all chunks c in (c', effects ++ more)

after_decode-Delivered :
    (chunks : List (List ℕ)) (ps : List Packet) (rest : List ℕ) (d : Decoded) (c : TcpConnection)
    → Split ps rest (join chunks) d
    → Settled d
    → ((c' : TcpConnection) (rs : List Packet)
        → decode c'.read_buffer ≡ packets [] c'.read_buffer
        → decode (c'.read_buffer ++ join chunks) ≡ packets rs rest
        → Delivered rs rest (read_all chunks c'))
    → Delivered ps rest (then_read chunks (after_decode d c))
unfolding after_decode
after_decode-Delivered chunks ps rest (packets _ _) c (split qs rs kept e h) settled next =
    let c' = record c { read_buffer = kept } in
    let v = next c' rs settled h in
    let effects = messages qs ++ start_read ∷ [] in
    record {
      handed =
          delivered-append effects (read_all chunks c').1
          ∙ ap (λ (l : List Packet). l ++ delivered (read_all chunks c').1) (delivered-messages qs)
          ∙ ap (λ (l : List Packet). qs ++ l) v.handed
          ∙ e;
      kept = v.kept;
      stays_open = Stays-append effects (read_all chunks c').1 (Stays-messages qs) v.stays_open;
    }
after_decode-Delivered chunks ps rest (invalid_length r) c p settled next = elim p [ ]
after_decode-Delivered chunks ps rest out_of_fuel c p settled next = elim p [ ]

-- Where the bytes kept so far hold no whole packet, and decoding them with all that comes gives
-- the packets `ps` and leaves `rest`, then reads of what comes in any pieces hand exactly the
-- packets `ps` to the message callback, in order, keep exactly `rest`, and do not close the
-- connection.
pub read_all-Delivered :
    (chunks : List (List ℕ)) (c : TcpConnection) (ps : List Packet) (rest : List ℕ)
    → decode c.read_buffer ≡ packets [] c.read_buffer
    → decode (c.read_buffer ++ join chunks) ≡ packets ps rest
    → Delivered ps rest (read_all chunks c)
unfolding on_read
read_all-Delivered [] c ps rest settled e =
    let same = packets-inj (sym settled ∙ ap decode (sym (append-nil c.read_buffer)) ∙ e) in
    record { handed = same.0; kept = same.1; stays_open = tt }
read_all-Delivered (bytes ∷ chunks) c ps rest settled e =
    let buffer = c.read_buffer ++ bytes in
    after_decode-Delivered chunks ps rest (decode buffer) (record c { read_buffer = buffer })
      (Split-decode ps rest (join chunks) (decode buffer) (
        sym (decode-append buffer (join chunks))
        ∙ ap decode (append_assoc c.read_buffer bytes (join chunks))
        ∙ e))
      (decode-Settled buffer) (λ c' rs. read_all-Delivered chunks c' rs rest)
