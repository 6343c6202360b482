-- ===== src/Game/Battle/Examples.antt =====
-- A battle of three on a grid: coordinates count tenths, a step is 6 of them and the range 80.
use cpp_game_room.Base.{ℕ, ◌+◌, ◌≡◌, refl, Bool, true, false, [], ◌∷◌, if◌then◌else◌, arith}
use cpp_game_room.Base.Int.{ℤ, pos, ◌+ℤ◌, ◌-ℤ◌, leb_ℤ, pos_part, neg_part}
use cpp_game_room.Base.Map.{Map, lookup, adjust, map_option}
use cpp_game_room.Game.Float.{FloatOps}
use cpp_game_room.Game.State.{EntityState, InputCommand}
use cpp_game_room.Game.Battle.{
  GameRoom, new_game_room, start, apply_input, move, fire_at, in_range, wound,
}
use cpp_game_room.Game.Battle.Survivors.{inputs, eliminates, ticks, step, run, Fair, run-start-Fair}
use cpp_game_room.Game.Battle.Health.{AllSound, AllWorse, step-AllWorse}
use cpp_game_room.Game.Battle.Shots.{suffers, lookup-apply_input}

-- Only products with 0.6f occur, on inputs between -1 and 1, and only distances along a line.
abbrev pub tenths : FloatOps
tenths = record {
  Float = ℤ;
  lit_0 = pos 0;
  lit_1 = pos 1;
  lit_5 = pos 50;
  lit_0_6 = pos 6;
  lit_8 = pos 80;
  neg = λ a. pos 0 -ℤ a;
  add = λ a b. a +ℤ b;
  sub = λ a b. a -ℤ b;
  mul = λ a b. if leb_ℤ (pos 1) a then b else if leb_ℤ (pos 0) a then pos 0 else pos 0 -ℤ b;
  clamp = λ v low high. if leb_ℤ v low then low else if leb_ℤ high v then high else v;
  hypot = λ a b. pos (pos_part a + neg_part a + (pos_part b + neg_part b));
  le = leb_ℤ;
}

abbrev shot : InputCommand ℤ
shot = record {
  player_id = 7;
  input_seq = 1;
  move_x = pos 3;
  move_y = pos 0;
  fire = true;
  timestamp_ms = 0;
}

abbrev battle : GameRoom ℤ
battle = start tenths (7 ∷ 8 ∷ 9 ∷ []) (new_game_room tenths 1000)

abbrev entity : ℕ → ℤ → ℤ → Bool → EntityState ℤ
entity p x hp alive = record { player_id = p; x = x; y = pos 0; hp = hp; alive = alive }

abbrev field : Map (EntityState ℤ)
field =
    (7, entity 7 (pos 0) (pos 100) true)
    ∷ (8, entity 8 (pos 50) (pos 10) true)
    ∷ (9, entity 9 (pos 100) (pos 100) true)
    ∷ []

one_shot :
    apply_input tenths shot field
    ≡ (7, entity 7 (pos 6) (pos 100) true)
      ∷ (8, entity 8 (pos 50) (pos 0) false)
      ∷ (9, entity 9 (pos 100) (pos 100) true)
      ∷ []
unfolding apply_input lookup adjust move fire_at in_range wound ◌+ℤ◌ ◌-ℤ◌
one_shot = refl

run-start-Fair_example : Fair (run tenths (inputs shot ∷ ticks ∷ eliminates 8 ∷ ticks ∷ []) battle)
run-start-Fair_example =
    run-start-Fair tenths 7 8 (9 ∷ []) (new_game_room tenths 1000)
      (inputs shot ∷ ticks ∷ eliminates 8 ∷ ticks ∷ []) (omega arith)

abbrev field_room : GameRoom ℤ
field_room = record {
  room_id = 1000;
  state = record { frame_id = 3; players = field };
  input_buffer = shot ∷ [];
  game_over = false;
  winner_id = 0;
}

field-AllSound : AllSound field
field-AllSound = (
  record { low = omega arith; high = omega arith; lives = refl },
  (
    record { low = omega arith; high = omega arith; lives = refl },
    (record { low = omega arith; high = omega arith; lives = refl }, tt),
  ),
)

step-AllWorse_example : AllWorse field (step tenths ticks field_room).state.players
step-AllWorse_example = step-AllWorse tenths ticks field_room field-AllSound

lookup-apply_input_example :
    lookup 8 (apply_input tenths shot field)
    ≡ map_option
        (suffers tenths true (move tenths shot (entity 7 (pos 0) (pos 100) true)))
        (lookup 8 field)
unfolding lookup
lookup-apply_input_example = lookup-apply_input tenths shot field _ 8 refl refl
