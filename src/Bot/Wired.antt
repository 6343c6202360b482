-- ===== src/Bot/Wired.antt =====
-- When the works of a bot's connection are in order, and how one work more or less keeps them so.
use cpp_game_room.Base.{
  ℕ, zero, suc, ◌+◌, ◌≤◌, ◌<◌, ◌≡◌, refl, ap, ◌∙◌, Bool, true, false, not, Option, none, some, List,
  [], ◌∷◌, arith,
}
use cpp_game_room.Bot.State.{BotClient, Work, add_work}
use cpp_game_room.Bot.Socket.{is_empty}
use cpp_game_room.Bot.Steps.{behind, take_work}
use cpp_game_room.Bot.Link.{flag, Kind, tries, reads, writes, is_kind, count, count-add, Wire, wire}

pub record Wired (w : Wire) : Type 0 where
  -- Connected, or trying to be in one way, never two.
  pub one_try : w.at tries + flag w.connected ≤ 1
  pub one_read : (s : ℕ) → w.at (reads s) ≤ 1
  pub one_write : (s : ℕ) → w.at (writes s) ≤ 1
  -- A connected bot listens.
  pub listens :
      w.running ≡ true → w.connected ≡ true → (s : ℕ) → w.socket ≡ some s → w.at (reads s) ≡ 1
  -- A write is under way exactly while something is in the queue.
  pub busy :
      w.running ≡ true
      → (s : ℕ) → w.socket ≡ some s
      → w.at (writes s) ≡ flag (not (is_empty w.write_queue))
  -- Numbers of sockets are not used before they are given out.
  pub fresh : (s : ℕ) → w.next_socket ≤ s → (w.at (reads s) ≡ 0) × (w.at (writes s) ≡ 0)
  pub below : (s : ℕ) → w.socket ≡ some s → s < w.next_socket

-- One work more.
abbrev pub with_work : Work → Wire → Wire
with_work x w = record w { at = λ k. flag (is_kind k x) + w.at k }

pub wire-add_work : (x : Work) (c : BotClient) → wire (add_work x c) ≡ with_work x (wire c)
wire-add_work x c =
    λ i. record (wire c) { at = λ k. (count-add (is_kind k) c.pending x ∙ add_comm k) i }
  where
    add_comm :
        (k : Kind)
        → count (is_kind k) c.pending + flag (is_kind k x)
          ≡ flag (is_kind k x) + count (is_kind k) c.pending
    add_comm k = omega arith

count-behind :
    (f : Work → Bool) (v : Work) (o : Option (Work × List Work)) (ws : List Work) (x : Work)
    (rest : List Work)
    → ((y : Work) (others : List Work)
        → o ≡ some (y, others)
        → count f ws ≡ flag (f y) + count f others)
    → behind v o ≡ some (x, rest)
    → count f (v ∷ ws) ≡ flag (f x) + count f rest
count-behind f v none ws x rest h e = ground arith
count-behind f v (some (y, others)) ws x rest h e = let g = h y others refl in ground arith

pub count-take_work :
    (f : Work → Bool) (i : ℕ) (ws : List Work) (x : Work) (rest : List Work)
    → take_work i ws ≡ some (x, rest)
    → count f ws ≡ flag (f x) + count f rest
count-take_work f i [] x rest e = ground arith
count-take_work f zero (w ∷ ws) x rest e = ground arith
count-take_work f (suc i) (w ∷ ws) x rest e =
    count-behind f w (take_work i ws) ws x rest (count-take_work f i ws) e

-- Works that the bot does not wait for on its socket can end.
pub lose :
    (x : Work) (w : Wire)
    → (w.running ≡ true
        → (s : ℕ) → w.socket ≡ some s
        → (is_kind (reads s) x ≡ false) × (is_kind (writes s) x ≡ false))
    → Wired (with_work x w)
    → Wired w
lose x w spared h = record {
  one_try = let g = h.one_try in omega arith;
  one_read = λ s. let g = h.one_read s in omega arith;
  one_write = λ s. let g = h.one_write s in omega arith;
  listens = λ on linked s e.
      let g = h.listens on linked s e in let z = ap flag (spared on s e).0 in omega arith;
  busy = λ on s e. let g = h.busy on s e in let z = ap flag (spared on s e).1 in omega arith;
  fresh = λ s l. let g = h.fresh s l in (omega arith, omega arith);
  below = h.below;
}

-- A closed socket.
abbrev pub unplugged : Wire → Wire
unplugged w = record w { connected = false; write_queue = []; socket = none }

pub unplug : (x : Work) (w : Wire) → Wired (with_work x w) → Wired (unplugged w)
unplug x w h = record {
  one_try = let g = h.one_try in omega arith;
  one_read = λ s. let g = h.one_read s in omega arith;
  one_write = λ s. let g = h.one_write s in omega arith;
  listens = λ on linked s e. ground arith;
  busy = λ on s e. ground arith;
  fresh = λ s l. let g = h.fresh s l in (omega arith, omega arith);
  below = λ s e. ground arith;
}
