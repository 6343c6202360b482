-- ===== src/Net/Connection/Writing.antt =====
-- The order of the writes on a connection.
use cpp_game_room.Base.{
  ℕ, zero, suc, ◌≤◌, ◌≡◌, refl, sym, ap, ◌∙◌, subst, true, false, Option, none, some, List, [], ◌∷◌,
  ◌++◌, if_intro, arith, length, take, drop, length-append, take-append_le, drop-append_le,
}
use cpp_game_room.Base.Map.{some-inj}
use cpp_game_room.Net.Packet.{Packet}
use cpp_game_room.Net.Codec.{Decoded, packets, invalid_length, out_of_fuel, decode, encode}
use cpp_game_room.Net.Connection.{
  TcpConnection, Effect, start_read, start_write, message, closed, post_close, shut_socket, Step,
  new_connection, start_first, do_write, is_idle, enqueue, send, tail, messages, written,
  after_decode, on_read,
}

-- The writes that a step starts.
abbrev pub writes : List Effect → List (List ℕ)
writes [] = []
writes (start_write bytes ∷ rest) = bytes ∷ writes rest
writes (start_read ∷ rest) = writes rest
writes (message p ∷ rest) = writes rest
writes (closed ∷ rest) = writes rest
writes (post_close ∷ rest) = writes rest
writes (shut_socket ∷ rest) = writes rest

-- A connection that was sent the packets whose encodings are `sent`, that has seen `done` writes
-- succeed, and that has started the writes `started`, with reads at any time.
pub data Reach : List (List ℕ) → ℕ → TcpConnection → List (List ℕ) → Type 0 where
  fresh : Reach [] 0 new_connection []
  sends :
      {sent : List (List ℕ)} {done : ℕ} {c : TcpConnection} {started : List (List ℕ)}
      (packet : Packet) (bytes : List ℕ) (r : Step)
      → Reach sent done c started
      → encode packet ≡ some bytes
      → send packet c ≡ some r
      → Reach (sent ++ bytes ∷ []) done r.0 (started ++ writes r.1)
  completes :
      {sent : List (List ℕ)} {done : ℕ} {c : TcpConnection} {started : List (List ℕ)}
      → Reach sent done c started
      → is_idle c.write_queue ≡ false
      → Reach sent (suc done) (written false c).0 (started ++ writes (written false c).1)
  reads :
      {sent : List (List ℕ)} {done : ℕ} {c : TcpConnection} {started : List (List ℕ)}
      (bytes : Option (List ℕ))
      → Reach sent done c started
      → Reach sent done (on_read bytes c).0 (started ++ writes (on_read bytes c).1)

-- The encodings not yet written stand in the queue, and the writes started are the ones written
-- and the first of the queue.
pub record InOrder (sent : List (List ℕ)) (done : ℕ) (c : TcpConnection) (started : List (List ℕ))
    : Type 0 where
  pub queue : c.write_queue ≡ drop done sent
  pub begun : started ≡ take (suc done) sent
  pub within : done ≤ length sent

append-nil : (xs : List (List ℕ)) → xs ++ [] ≡ xs
append-nil [] = refl
append-nil (x ∷ xs) = ap (◌∷◌ x) (append-nil xs)

writes-append : (xs ys : List Effect) → writes (xs ++ ys) ≡ writes xs ++ writes ys
writes-append [] ys = refl
writes-append (start_write b ∷ xs) ys = ap (◌∷◌ b) (writes-append xs ys)
writes-append (start_read ∷ xs) ys = writes-append xs ys
writes-append (message p ∷ xs) ys = writes-append xs ys
writes-append (closed ∷ xs) ys = writes-append xs ys
writes-append (post_close ∷ xs) ys = writes-append xs ys
writes-append (shut_socket ∷ xs) ys = writes-append xs ys

writes-messages : (ps : List Packet) → writes (messages ps) ≡ []
writes-messages [] = refl
writes-messages (p ∷ ps) = writes-messages ps

-- A read starts no write and leaves the queue.
after_decode-writes :
    (d : Decoded) (c : TcpConnection)
    → (writes (after_decode d c).1 ≡ []) × ((after_decode d c).0.write_queue ≡ c.write_queue)
unfolding after_decode
after_decode-writes (packets ps rest) c =
    (writes-append (messages ps) (start_read ∷ []) ∙ ap (λ xs. xs ++ []) (writes-messages ps), refl)
after_decode-writes (invalid_length rest) c = (refl, refl)
after_decode-writes out_of_fuel c = (refl, refl)

on_read-writes :
    (b : Option (List ℕ)) (c : TcpConnection)
    → (writes (on_read b c).1 ≡ []) × ((on_read b c).0.write_queue ≡ c.write_queue)
unfolding on_read
on_read-writes none c = (refl, refl)
on_read-writes (some bytes) c =
    after_decode-writes (decode (c.read_buffer ++ bytes))
      (record c { read_buffer = c.read_buffer ++ bytes })

-- Where the list ends, what is dropped is nothing, and what is taken is all.
drop-idle :
    (n : ℕ) (xs : List (List ℕ)) → n ≤ length xs → is_idle (drop n xs) ≡ true → n ≡ length xs
drop-idle zero [] h e = refl
drop-idle zero (x ∷ xs) h e = absurd (cc e)
drop-idle (suc n) [] h e = absurd (omega arith)
drop-idle (suc n) (x ∷ xs) h e = ap suc (drop-idle n xs (omega arith) e)

drop-busy : (n : ℕ) (xs : List (List ℕ)) → is_idle (drop n xs) ≡ false → suc n ≤ length xs
drop-busy zero [] e = absurd (cc e)
drop-busy zero (x ∷ xs) e = omega arith
drop-busy (suc n) [] e = absurd (cc e)
drop-busy (suc n) (x ∷ xs) e = omega (arith, drop-busy n xs e)

take-suc :
    (n : ℕ) (xs : List (List ℕ)) → take n xs ++ writes (start_first (drop n xs)) ≡ take (suc n) xs
take-suc zero [] = refl
take-suc zero (x ∷ xs) = refl
take-suc (suc n) [] = refl
take-suc (suc n) (x ∷ xs) = ap (◌∷◌ x) (take-suc n xs)

tail-drop : (n : ℕ) (xs : List (List ℕ)) → tail (drop n xs) ≡ drop (suc n) xs
tail-drop zero [] = refl
tail-drop zero (x ∷ xs) = refl
tail-drop (suc n) [] = refl
tail-drop (suc n) (x ∷ xs) = tail-drop n xs

take_full : (n : ℕ) (xs : List (List ℕ)) → length xs ≤ n → take n xs ≡ xs
take_full zero [] h = refl
take_full zero (x ∷ xs) h = absurd (omega arith)
take_full (suc n) [] h = refl
take_full (suc n) (x ∷ xs) h = ap (◌∷◌ x) (take_full n xs (omega arith))

module _ (sent : List (List ℕ)) (done : ℕ) (c : TcpConnection) (started : List (List ℕ))
    (o : InOrder sent done c started) where
  enqueue-InOrder :
      (bytes : List ℕ) (r : Step)
      → enqueue (some bytes) c ≡ some r
      → InOrder (sent ++ bytes ∷ []) done r.0 (started ++ writes r.1)
  unfolding enqueue
  enqueue-InOrder bytes r e =
      let more = sent ++ bytes ∷ [] in
      let queued : c.write_queue ++ bytes ∷ [] ≡ drop done more =
        ap (λ q. q ++ bytes ∷ []) o.queue ∙ sym (drop-append_le done sent (bytes ∷ []) o.within) in
      let fits : done ≤ length more = omega (arith, length-append sent (bytes ∷ []), o.within) in
      subst (λ (s : Step). InOrder more done s.0 (started ++ writes s.1)) (some-inj e)
        (if_intro (λ (s : Step). InOrder more done s.0 (started ++ writes s.1))
          (is_idle c.write_queue)
          (λ idle.
            let all = drop-idle done sent o.within (ap is_idle (sym o.queue) ∙ idle) in
            record {
              queue = queued;
              begun =
                  ap (λ xs. xs ++ writes (start_first (c.write_queue ++ bytes ∷ [])))
                    (o.begun
                      ∙ take_full (suc done) sent (omega (arith, all))
                      ∙ sym (take_full done sent (omega (arith, all)))
                      ∙ sym (take-append_le done sent (bytes ∷ []) o.within))
                  ∙ ap (λ q. take done more ++ writes (start_first q)) queued
                  ∙ take-suc done more;
              within = fits;
            })
          (λ busy.
            let left = drop-busy done sent (ap is_idle (sym o.queue) ∙ busy) in
            record {
              queue = queued;
              begun =
                  append-nil started
                  ∙ o.begun
                  ∙ sym (take-append_le (suc done) sent (bytes ∷ []) left);
              within = fits;
            }))

  written-InOrder :
      is_idle c.write_queue ≡ false
      → InOrder sent (suc done) (written false c).0 (started ++ writes (written false c).1)
  unfolding written do_write
  written-InOrder busy =
      let next : tail c.write_queue ≡ drop (suc done) sent =
        ap tail o.queue ∙ tail-drop done sent in
      record {
        queue = next;
        begun =
            ap (λ xs. xs ++ writes (start_first (tail c.write_queue))) o.begun
            ∙ ap (λ q. take (suc done) sent ++ writes (start_first q)) next
            ∙ take-suc (suc done) sent;
        within = drop-busy done sent (ap is_idle (sym o.queue) ∙ busy);
      }

-- However sends, completed writes and reads follow one another on a connection without write
-- errors, the encodings of the packets sent are written in the order of sending, none left out
-- and none twice: with `done` writes complete, the writes started are the first `done` + 1
-- encodings, as far as there are so many, and the rest of the encodings stands in the queue.
pub Reach-InOrder :
    {sent : List (List ℕ)} {done : ℕ} {c : TcpConnection} {started : List (List ℕ)}
    → Reach sent done c started
    → InOrder sent done c started
unfolding send
Reach-InOrder fresh = record { queue = refl; begun = refl; within = omega arith }
Reach-InOrder (sends {sent} {done} {c} {started} packet bytes r before e s) =
    enqueue-InOrder sent done c started (Reach-InOrder before) bytes r
      (ap (λ o. enqueue o c) (sym e) ∙ s)
Reach-InOrder (completes {sent} {done} {c} {started} before busy) =
    written-InOrder sent done c started (Reach-InOrder before) busy
Reach-InOrder (reads {sent} {done} {c} {started} bytes before) =
    let o = Reach-InOrder before in
    let quiet = on_read-writes bytes c in
    record {
      queue = quiet.1 ∙ o.queue;
      begun = ap (λ xs. started ++ xs) quiet.0 ∙ append-nil started ∙ o.begun;
      within = o.within;
    }
