-- ===== src/Bot/Moves.antt =====
-- How a socket is replaced, opened, read and written, on what the wired works depend on.
use cpp_game_room.Base.{ℕ, ◌+◌, ◌≡◌, Bool, true, false, none, some, List, [], ◌∷◌, ◌++◌, arith}
use cpp_game_room.Base.Int.{ℤ}
use cpp_game_room.Bot.State.{connects, timer, opening, reading, writing, closing}
use cpp_game_room.Bot.Link.{Kind, tries, reads, writes, Wire}
use cpp_game_room.Bot.Wired.{Wired, with_work}

-- Connect makes a socket.
abbrev pub plugged : Wire → Wire
plugged w = record w {
  connected = false;
  write_queue = [];
  socket = some w.next_socket;
  next_socket = w.next_socket + 1;
}

pub try_later :
    (d d' : ℤ) (r r' : Bool) (w : Wire)
    → Wired (with_work (timer d (connects r)) w)
    → Wired (with_work (timer d' (connects r')) (plugged w))
try_later d d' r r' w h = record {
  one_try = let g = h.one_try in omega arith;
  one_read = h.one_read;
  one_write = h.one_write;
  listens = λ on linked s e. ground arith;
  busy = λ on s e. let g = h.fresh s in ground arith;
  fresh = λ s l. h.fresh s (omega arith);
  below = λ s e. ground arith;
}

pub dial :
    (d : ℤ) (r r' : Bool) (w : Wire)
    → Wired (with_work (timer d (connects r)) w)
    → Wired (with_work (opening w.next_socket r') (plugged w))
dial d r r' w h = record {
  one_try = let g = h.one_try in omega arith;
  one_read = λ s. let g = h.one_read s in let f = h.fresh s in ground arith;
  one_write = h.one_write;
  listens = λ on linked s e. ground arith;
  busy = λ on s e. let g = h.fresh s in ground arith;
  fresh = λ s l. let f = h.fresh s in (ground arith, ground arith);
  below = λ s e. ground arith;
}

-- The handler of async_connect.
pub retry :
    (s : ℕ) (d : ℤ) (r r' : Bool) (w : Wire)
    → Wired (with_work (opening s r) w)
    → Wired (with_work (timer d (connects r')) w)
retry s d r r' w h = record {
  one_try = let g = h.one_try in omega arith;
  one_read = λ t. let g = h.one_read t in omega arith;
  one_write = h.one_write;
  listens = λ on linked t e. let g = h.one_try in ground arith;
  busy = h.busy;
  fresh = λ t l. let g = h.fresh t l in (omega arith, omega arith);
  below = h.below;
}

pub open_wire :
    (s : ℕ) (r : Bool) (w : Wire)
    → w.socket ≡ some s
    → Wired (with_work (opening s r) w)
    → Wired (with_work (reading s) (record w { connected = true }))
open_wire s r w is_s h = record {
  one_try = let g = h.one_try in omega arith;
  one_read = h.one_read;
  one_write = h.one_write;
  listens = λ on linked t e. let g = h.one_read t in ground arith;
  busy = h.busy;
  fresh = h.fresh;
  below = h.below;
}

-- The handlers of async_read_some, with an error, and of async_write.
pub hang :
    (s : ℕ) (w : Wire) → Wired (with_work (reading s) w) → Wired (record w { connected = false })
hang s w h = record {
  one_try = let g = h.one_try in omega arith;
  one_read = λ t. let g = h.one_read t in omega arith;
  one_write = λ t. let g = h.one_write t in omega arith;
  listens = λ on linked t e. ground arith;
  busy = λ on t e. let g = h.busy on t e in omega arith;
  fresh = λ t l. let g = h.fresh t l in (omega arith, omega arith);
  below = h.below;
}

pub all_sent :
    (s : ℕ) (bytes : List ℕ) (w : Wire)
    → w.running ≡ true
    → w.socket ≡ some s
    → Wired (with_work (writing s bytes) w)
    → Wired (record w { write_queue = [] })
all_sent s bytes w on is_s h = record {
  one_try = let g = h.one_try in omega arith;
  one_read = λ t. let g = h.one_read t in omega arith;
  one_write = λ t. let g = h.one_write t in omega arith;
  listens = λ on' linked t e. let g = h.listens on' linked t e in omega arith;
  busy = λ on' t e. let g = h.one_write t in ground arith;
  fresh = λ t l. let g = h.fresh t l in (omega arith, omega arith);
  below = h.below;
}

pub next_sent :
    (s : ℕ) (bytes b : List ℕ) (q : List (List ℕ)) (w : Wire)
    → w.socket ≡ some s
    → Wired (with_work (writing s bytes) w)
    → Wired (with_work (writing s b) (record w { write_queue = b ∷ q }))
next_sent s bytes b q w is_s h = record {
  one_try = h.one_try;
  one_read = h.one_read;
  one_write = h.one_write;
  listens = h.listens;
  busy = λ on t e. let g = h.one_write t in ground arith;
  fresh = h.fresh;
  below = h.below;
}

-- The handler that SendPacket posts.
pub first_queued :
    (s : ℕ) (b : List ℕ) (w : Wire)
    → w.running ≡ true
    → w.socket ≡ some s
    → w.write_queue ≡ []
    → Wired w
    → Wired (with_work (writing s b) (record w { write_queue = b ∷ [] }))
first_queued s b w on is_s empty h = record {
  one_try = let g = h.one_try in omega arith;
  one_read = λ t. let g = h.one_read t in omega arith;
  one_write = λ t. let g = h.one_write t in let f = h.busy on t in ground arith;
  listens = λ on' linked t e. let g = h.listens on' linked t e in omega arith;
  busy = λ _ t e. let f = h.busy on t e in ground arith;
  fresh = λ t l. let g = h.fresh t l in let f = h.below s is_s in ground arith;
  below = h.below;
}

pub more_queued :
    (b x : List ℕ) (q : List (List ℕ)) (w : Wire)
    → w.write_queue ≡ x ∷ q
    → Wired w
    → Wired (record w { write_queue = x ∷ q ++ b ∷ [] })
more_queued b x q w is_q h = record {
  one_try = h.one_try;
  one_read = h.one_read;
  one_write = h.one_write;
  listens = h.listens;
  busy = λ on t e. let f = h.busy on t e in ground arith;
  fresh = h.fresh;
  below = h.below;
}

-- Stop.
pub halt : (w : Wire) → Wired w → Wired (with_work closing (record w { running = false }))
halt w h = record {
  one_try = let g = h.one_try in omega arith;
  one_read = λ t. let g = h.one_read t in omega arith;
  one_write = λ t. let g = h.one_write t in omega arith;
  listens = λ on linked t e. ground arith;
  busy = λ on t e. ground arith;
  fresh = λ t l. let g = h.fresh t l in (omega arith, omega arith);
  below = h.below;
}

-- A new bot that is about to connect.
pub fresh_wire :
    (d : ℤ) (r : Bool) (w : Wire)
    → w.connected ≡ false
    → w.socket ≡ none
    → ((k : Kind) → w.at k ≡ 0)
    → Wired (with_work (timer d (connects r)) w)
fresh_wire d r w off no_socket idle = record {
  one_try = let g = idle tries in ground arith;
  one_read = λ t. let g = idle (reads t) in omega arith;
  one_write = λ t. let g = idle (writes t) in omega arith;
  listens = λ on linked t e. cc;
  busy = λ on t e. ground arith;
  fresh = λ t l. let g = idle (reads t) in let f = idle (writes t) in (omega arith, omega arith);
  below = λ t e. ground arith;
}
