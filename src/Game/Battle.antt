-- ===== src/Game/Battle.antt =====
-- src/game/game_room.h and game_room.cpp, with src/game/input_buffer.cpp: the logic of one battle.
-- The mutex makes each method one step. The players stand in the hash map's iteration order.
pub mod Survivors
pub mod Health
pub mod Shots
pub mod Examples
use cpp_game_room.Base.{
  ℕ, zero, suc, ◌+◌, ◌%◌, ◌^◌, Bool, true, false, not, ◌&&◌, ◌||◌, Option, none, some, List, [],
  ◌∷◌, ◌++◌, leb, ◌==◌, if◌then◌else◌,
}
use cpp_game_room.Base.Int.{ℤ, pos, ◌-ℤ◌, leb_ℤ}
use cpp_game_room.Base.Map.{Map, lookup, insert, adjust}
use cpp_game_room.Game.Float.{FloatOps}
use cpp_game_room.Game.State.{EntityState, GameState, InputCommand}

pub record GameRoom (F : Type 0) : Type 0 where
  pub room_id : ℕ
  pub state : GameState F
  pub input_buffer : List (InputCommand F)
  pub game_over : Bool
  pub winner_id : ℕ

-- InputBuffer::Push and PopAll.
unfoldable pub push_input :
    {F : Type 0} → InputCommand F → List (InputCommand F) → List (InputCommand F)
push_input input inputs = inputs ++ input ∷ []

unfoldable pub pop_all :
    {F : Type 0} → List (InputCommand F) → List (InputCommand F) × List (InputCommand F)
pop_all inputs = ([], inputs)

-- The loop of CheckGameOver: the number of the living, and the last of them.
unfoldable pub count_alive : {F : Type 0} → ℕ → ℕ → Map (EntityState F) → ℕ × ℕ
count_alive n last [] = (n, last)
count_alive n last ((k, e) ∷ m) =
    count_alive (if e.alive then n + 1 else n) (if e.alive then k else last) m

abbrev pub is_empty : {F : Type 0} → Map (EntityState F) → Bool
is_empty [] = true
is_empty (e ∷ m) = false

unfoldable pub check_game_over : {F : Type 0} → GameRoom F → GameRoom F
unfolding count_alive
check_game_over r =
    let (alive_count, alive_player) = count_alive 0 0 r.state.players in
    if leb alive_count 1 && not (is_empty r.state.players)
    then record r { game_over = true; winner_id = alive_player }
    else r

-- target.hp -= 10, and the death at 0.
unfoldable pub wound : {F : Type 0} → EntityState F → EntityState F
wound e =
    let hp = e.hp -ℤ pos 10 in
    if leb_ℤ hp (pos 0) then record e { hp = pos 0; alive = false } else record e { hp = hp }

unfoldable pub kill : {F : Type 0} → EntityState F → EntityState F
kill e = record e { hp = pos 0; alive = false }

unfoldable pub eliminate_player : {F : Type 0} → ℕ → GameRoom F → GameRoom F
unfolding kill
eliminate_player player_id r = if r.game_over then r else elim (lookup player_id r.state.players) [
  | none ↦ r
  | some e ↦
      if not e.alive
      then r
      else check_game_over
          (record r { state = record r.state { players = adjust player_id kill r.state.players } })
]

unfoldable pub handle_input : {F : Type 0} → InputCommand F → GameRoom F → GameRoom F
unfolding push_input
handle_input input r = record r { input_buffer = push_input input r.input_buffer }

unfoldable pub stop : {F : Type 0} → GameRoom F → GameRoom F
stop r = record r { game_over = true }

module _ (ops : FloatOps) where
  open ops use {Float, lit_0, lit_1, lit_5, lit_0_6, lit_8, neg, add, sub, mul, clamp, hypot, le}

  abbrev pub new_game_room : ℕ → GameRoom Float
  new_game_room room_id = record {
    room_id = room_id;
    state = record { frame_id = 0; players = [] };
    input_buffer = [];
    game_over = false;
    winner_id = 0;
  }

  -- The loop of Start, with the next place to spawn at.
  unfoldable pub spawn : Float → List ℕ → Map (EntityState Float) → Map (EntityState Float)
  spawn spawn_x [] m = m
  spawn spawn_x (p ∷ ps) m =
      spawn (add spawn_x lit_5) ps
        (insert p (record { player_id = p; x = spawn_x; y = lit_0; hp = pos 100; alive = true }) m)

  unfoldable pub start : List ℕ → GameRoom Float → GameRoom Float
  unfolding spawn
  start player_ids r = record r {
    state = record { frame_id = 0; players = spawn lit_0 player_ids [] };
    game_over = false;
    winner_id = 0;
  }

  unfoldable pub move : InputCommand Float → EntityState Float → EntityState Float
  move input e =
      let dx = clamp input.move_x (neg lit_1) lit_1 in
      let dy = clamp input.move_y (neg lit_1) lit_1 in
      record e { x = add e.x (mul dx lit_0_6); y = add e.y (mul dy lit_0_6) }

  unfoldable pub in_range : EntityState Float → EntityState Float → Bool
  in_range shooter target = le (hypot (sub target.x shooter.x) (sub target.y shooter.y)) lit_8

  -- The loop over the targets. The shooter's own entry is skipped, so its place stays fixed.
  unfoldable pub fire_at : ℕ → EntityState Float → Map (EntityState Float) → Map (EntityState Float)
  fire_at shooter_id shooter [] = []
  fire_at shooter_id shooter ((k, target) ∷ m) =
      (
        k,
        (if k == shooter_id || not target.alive
            then target
            else if in_range shooter target
            then wound target
            else target),
      )
      ∷ fire_at shooter_id shooter m

  unfoldable pub apply_input :
      InputCommand Float → Map (EntityState Float) → Map (EntityState Float)
  apply_input input m = elim (lookup input.player_id m) [
    | none ↦ m
    | some e ↦
        if not e.alive
        then m
        else let moved = adjust input.player_id (move input) m in
          if not input.fire then moved else fire_at input.player_id (move input e) moved
  ]

  unfoldable pub apply_all :
      List (InputCommand Float) → Map (EntityState Float) → Map (EntityState Float)
  apply_all [] m = m
  apply_all (input ∷ inputs) m = apply_all inputs (apply_input input m)

  unfoldable pub tick : GameRoom Float → GameRoom Float
  unfolding pop_all
  tick r =
      let (buffer, inputs) = pop_all r.input_buffer in
      let r' = record r { input_buffer = buffer } in
      if r.game_over
      then r'
      else check_game_over (record r' {
        state = record {
          frame_id = (r.state.frame_id + 1) % 2 ^ 64;
          players = apply_all inputs r.state.players;
        };
      })
