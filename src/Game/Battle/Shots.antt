-- ===== src/Game/Battle/Shots.antt =====
-- What one input does to each player, whatever the order in which the map is walked.
use cpp_game_room.Base.{
  ℕ, ◌≡◌, refl, inl, inr, Bool, true, false, ◌&&◌, Option, none, some, [], ◌∷◌, ◌==◌, if◌then◌else◌,
  arith, Option-cases,
}
use cpp_game_room.Base.Map.{Map, lookup, adjust, map_option, lookup-adjust}
use cpp_game_room.Game.Float.{FloatOps}
use cpp_game_room.Game.State.{EntityState, InputCommand}
use cpp_game_room.Game.Battle.{wound, move, in_range, fire_at, apply_input}

module _ (ops : FloatOps) where
  open ops use {Float}

  -- What a shot from a place does to another player.
  unfoldable pub suffers : Bool → EntityState Float → EntityState Float → EntityState Float
  suffers fire shooter target =
      if fire && target.alive && in_range ops shooter target then wound target else target

  lookup-fire_at :
      (p k : ℕ) (s : EntityState Float) (m : Map (EntityState Float))
      → lookup k (fire_at ops p s m)
        ≡ (if k == p then lookup k m else map_option (suffers true s) (lookup k m))
  unfolding lookup fire_at suffers
  lookup-fire_at p k s [] = ground arith
  lookup-fire_at p k s ((j, e) ∷ m) = ground (arith, lookup-fire_at p k s m)

  suffers_calm :
      (s : EntityState Float) (o : Option (EntityState Float)) → map_option (suffers false s) o ≡ o
  unfolding suffers
  suffers_calm s none = refl
  suffers_calm s (some e) = refl

  -- An input of a living player moves that player, and if it fires it wounds every other living
  -- player in range of the new place; everybody else stays as before, in whatever order the map
  -- is walked.
  pub lookup-apply_input :
      (input : InputCommand Float) (m : Map (EntityState Float)) (s : EntityState Float) (k : ℕ)
      → lookup input.player_id m ≡ some s
      → s.alive ≡ true
      → lookup k (apply_input ops input m) ≡ (
          if k == input.player_id
          then some (move ops input s)
          else map_option (suffers input.fire (move ops input s)) (lookup k m))
  unfolding apply_input
  lookup-apply_input input m s k e alive =
      let p = input.player_id in
      ground (
        arith,
        lookup-adjust p k (move ops input) m,
        lookup-fire_at p k (move ops input s) (adjust p (move ops input) m),
        suffers_calm (move ops input s) (lookup k m),
      )

  -- An input of somebody who is dead, or not in the battle, changes nothing.
  pub apply_input_idle :
      (input : InputCommand Float) (m : Map (EntityState Float))
      → ((s : EntityState Float) → lookup input.player_id m ≡ some s → s.alive ≡ false)
      → apply_input ops input m ≡ m
  unfolding apply_input
  apply_input_idle input m h = elim (Option-cases (lookup input.player_id m)) [
    | inl e ↦ rw (e, apply_input)
    | inr (s, e) ↦ rw (e, apply_input, h s e)
  ]
