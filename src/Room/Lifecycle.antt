-- ===== src/Room/Lifecycle.antt =====
-- The room's state machine: Waiting, Playing, Settlement, Closed, and no way back.
use cpp_game_room.Base.{
  ℕ, ◌+◌, ◌≤◌, ◌≡◌, refl, ◌≢◌, Bool, true, false, not, Option, List, [], ◌∷◌, if◌then◌else◌, inl,
  inr, arith, Bool-cases,
}
use cpp_game_room.Base.Map.{adjust}
use cpp_game_room.Room.{
  RoomState, waiting, playing, Room, Lookup, new_room, state_value, is_empty, mark_ready,
  add_player, remove_player, set_ready, set_ready_and_try_start, start_game, set_settlement, close,
  on_player_disconnect, on_player_reconnect,
}
use cpp_game_room.Room.Ready.{ready_loop-every_ready, AllReady, every_ready-AllReady}

-- The calls that change a room.
pub data Call : Type 0 where
  adds removes disconnects : ℕ → Call
  readies tries : ℕ → Bool → Call
  starts settles closes : Call
  reconnects : ℕ → Option ℕ → Call

unfoldable pub step : Lookup → Call → Room → Room
step find (adds p) r = (add_player p r).0
step find (removes p) r = (remove_player p r).0
step find (disconnects p) r = on_player_disconnect p r
step find (readies p b) r = (set_ready find p b r).0
step find (tries p b) r = (set_ready_and_try_start find p b r).0
step find starts r = start_game r
step find settles r = set_settlement r
step find closes r = close r
step find (reconnects p s) r = (on_player_reconnect p s r).0

unfoldable pub run : Lookup → List Call → Room → Room
run find [] r = r
run find (c ∷ cs) r = run find cs (step find c r)

-- From `r` to `r'` the id is kept, the state is the same or later, and a room that begins to play
-- was waiting and has at least one player, all of them ready.
pub record Forward (r r' : Room) : Type 0 where
  pub id_kept : r'.room_id ≡ r.room_id
  pub onward : state_value r.state ≤ state_value r'.state
  pub begins :
      r'.state ≡ playing
      → r.state ≢ playing
      → (r.state ≡ waiting) × (is_empty r'.players ≡ false) × AllReady r'.players

state-onward : (s : RoomState) → state_value waiting ≤ state_value s
state-onward s = ground arith

-- Every call on a room keeps its id and leaves its state the same or later in the order Waiting,
-- Playing, Settlement, Closed, and a room begins to play only from Waiting, with at least one
-- player and all players ready.
pub step-Forward : (find : Lookup) (c : Call) (r : Room) → Forward r (step find c r)
unfolding step
step-Forward find (adds p) r =
    unfold add_player in
    record { id_kept = ground arith; onward = ground arith; begins = λ h k. absurd (ground arith) }
step-Forward find (removes p) r =
    unfold remove_player in
    record { id_kept = refl; onward = ground arith; begins = λ h k. absurd (k h) }
step-Forward find (disconnects p) r =
    unfold on_player_disconnect in
    record { id_kept = refl; onward = ground arith; begins = λ h k. absurd (k h) }
step-Forward find (readies p b) r =
    unfold set_ready in
    record { id_kept = ground arith; onward = ground arith; begins = λ h k. absurd (ground arith) }
step-Forward find (tries p b) r =
    unfold set_ready_and_try_start in
    let m = adjust p (mark_ready b) r.players in
    record {
      id_kept = ground arith;
      onward = ground arith;
      begins = λ h k.
          ground (arith, ready_loop-every_ready (not (is_empty m)) m, every_ready-AllReady m);
    }
step-Forward find starts r =
    unfold start_game in
    record {
      id_kept = ground arith;
      onward = ground arith;
      begins = λ h k. ground (
        arith,
        ready_loop-every_ready (not (is_empty r.players)) r.players,
        every_ready-AllReady r.players,
      );
    }
step-Forward find settles r =
    unfold set_settlement in
    record { id_kept = ground arith; onward = ground arith; begins = λ h k. absurd (ground arith) }
step-Forward find closes r =
    unfold close in
    record { id_kept = refl; onward = ground arith; begins = λ h k. absurd (ground arith) }
step-Forward find (reconnects p s) r =
    unfold on_player_reconnect in
    record { id_kept = refl; onward = ground arith; begins = λ h k. absurd (k h) }

-- Over any calls the state only moves forward, so a closed room stays closed.
pub run-onward :
    (find : Lookup) (cs : List Call) (r : Room)
    → state_value r.state ≤ state_value (run find cs r).state
unfolding run
run-onward find [] r = omega arith
run-onward find (c ∷ cs) r =
    omega (arith, (step-Forward find c r).onward, run-onward find cs (step find c r))

-- The calls whose answer makes the room manager start a game.
unfoldable pub started : Lookup → Call → Room → Bool
started find (tries p b) r = (set_ready_and_try_start find p b r).2
started find _ r = false

unfoldable pub start_count : Lookup → List Call → Room → ℕ
start_count find [] r = 0
start_count find (c ∷ cs) r =
    (if started find c r then 1 else 0) + start_count find cs (step find c r)

started-waiting :
    (find : Lookup) (c : Call) (r : Room)
    → started find c r ≡ true
    → (r.state ≡ waiting) × ((step find c r).state ≡ playing)
unfolding started
started-waiting find (tries p b) r h =
    unfold step set_ready_and_try_start in (ground arith, ground arith)
started-waiting find _ r h = cc

abbrev pub chances : RoomState → ℕ
chances waiting = 1
chances _ = 0

chances-onward : (s t : RoomState) → state_value s ≤ state_value t → chances t ≤ chances s
chances-onward s t h = ground arith

start_count-le :
    (find : Lookup) (cs : List Call) (r : Room) → start_count find cs r ≤ chances r.state
unfolding start_count
start_count-le find [] r = omega arith
start_count-le find (c ∷ cs) r = elim (Bool-cases (started find c r)) [
  | inl e ↦
      let w = started-waiting find c r e in
      let ih = start_count-le find cs (step find c r) in rw e (ground arith)
  | inr e ↦
      let ih = start_count-le find cs (step find c r) in
      let f = chances-onward r.state (step find c r).state (step-Forward find c r).onward in
      rw e (omega arith)
]

-- Whatever calls are made on a new room, at most one of them answers that it started the game.
pub start_count-new_room :
    (find : Lookup) (id : ℕ) (cs : List Call) → start_count find cs (new_room id) ≤ 1
start_count-new_room find id cs = start_count-le find cs (new_room id)
