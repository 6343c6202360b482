-- ===== src/Room/Ready.antt =====
-- SetReadyAndTryStart is SetReady, CanStart and StartGame in one step.
use cpp_game_room.Base.{
  ℕ, ◌≡◌, refl, Bool, true, not, ◌&&◌, none, some, [], ◌∷◌, if◌then◌else◌, arith,
}
use cpp_game_room.Base.Map.{Map, has, adjust}
use cpp_game_room.Room.{
  waiting, playing, RoomPlayer, Room, Lookup, is_empty, mark_ready, ready_loop, every_ready,
  set_ready, set_ready_and_try_start, can_start, start_game, broadcast,
}

-- The folded test agrees with the loop that returns early.
pub ready_loop-every_ready : (b : Bool) (m : Map RoomPlayer) → ready_loop b m ≡ (b && every_ready m)
unfolding ready_loop every_ready
ready_loop-every_ready b [] = ground arith
ready_loop-every_ready b ((k, p) ∷ m) = ground (arith, ready_loop-every_ready (b && p.ready) m)

-- CanStart answers exactly whether StartGame would start.
pub start_game-can_start :
    (r : Room) → start_game r ≡ (if can_start r then record r { state = playing } else r)
unfolding start_game can_start
start_game-can_start r = ground (arith, ready_loop-every_ready (not (is_empty r.players)) r.players)

-- For a player of a waiting room the combined ready-and-start call leaves the room that SetReady
-- and then StartGame leave, sends the messages of SetReady, and answers what CanStart answers in
-- between.
pub set_ready_and_try_start_split :
    (find : Lookup) (p : ℕ) (b : Bool) (r : Room)
    → has p r.players ≡ true
    → r.state ≡ waiting
    → let r' = (set_ready find p b r).0 in
      let t = set_ready_and_try_start find p b r in
      (t.0 ≡ start_game r') × (t.1 ≡ (set_ready find p b r).1) × (t.2 ≡ can_start r')
unfolding set_ready set_ready_and_try_start can_start start_game broadcast
set_ready_and_try_start_split none p b r h e = ground (
  arith,
  ready_loop-every_ready (not (is_empty (adjust p (mark_ready b) r.players)))
      (adjust p (mark_ready b) r.players),
)
set_ready_and_try_start_split (some find) p b r h e = ground (
  arith,
  ready_loop-every_ready (not (is_empty (adjust p (mark_ready b) r.players)))
      (adjust p (mark_ready b) r.players),
)

-- Every player is ready.
abbrev pub AllReady : Map RoomPlayer → Type 0
AllReady [] = Unit {0}
AllReady ((k, p) ∷ m) = (p.ready ≡ true) × AllReady m

pub every_ready-AllReady : (m : Map RoomPlayer) → every_ready m ≡ true → AllReady m
unfolding every_ready
every_ready-AllReady [] h = tt
every_ready-AllReady ((k, p) ∷ m) h = (ground arith, every_ready-AllReady m (ground arith))

-- Setting a flag twice is setting it once, to the later value.
adjust_twice :
    (p : ℕ) (b c : Bool) (m : Map RoomPlayer)
    → adjust p (mark_ready c) (adjust p (mark_ready b) m) ≡ adjust p (mark_ready c) m
unfolding adjust mark_ready
adjust_twice p b c [] = refl
adjust_twice p b c ((k, v) ∷ m) = ground (arith, adjust_twice p b c m)
