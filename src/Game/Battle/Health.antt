-- ===== src/Game/Battle/Health.antt =====
-- Hit points: their range, what a shot does to each player, and that nobody comes back.
use cpp_game_room.Base.{
  ℕ, ◌≡◌, refl, ◌∙◌, inl, inr, true, false, not, ◌||◌, List, [], ◌∷◌, ◌==◌, arith, if_intro,
  Option-cases,
}
use cpp_game_room.Base.Int.{pos, ◌-ℤ◌, ◌≤ℤ◌, leb_ℤ}
use cpp_game_room.Base.Map.{Map, lookup, adjust}
use cpp_game_room.Game.Float.{FloatOps}
use cpp_game_room.Game.State.{EntityState, InputCommand}
use cpp_game_room.Game.Battle.{
  GameRoom, check_game_over, wound, kill, eliminate_player, handle_input, move, in_range, fire_at,
  apply_input, apply_all, tick,
}
use cpp_game_room.Game.Battle.Survivors.{Call, inputs, eliminates, ticks, step}

-- Between 0 and 100 hit points, and alive exactly while there are any.
pub record IsSound {F : Type 0} (e : EntityState F) : Type 0 where
  pub low : pos 0 ≤ℤ e.hp
  pub high : e.hp ≤ℤ pos 100
  pub lives : e.alive ≡ not (leb_ℤ e.hp (pos 0))

-- What an entity may become: no healthier, not alive again, and sound.
pub record Worse {F : Type 0} (e e' : EntityState F) : Type 0 where
  pub hp_falls : e'.hp ≤ℤ e.hp
  pub stays_dead : e.alive ≡ false → e'.alive ≡ false
  pub same_player : e'.player_id ≡ e.player_id
  pub sound : IsSound e'

Worse-refl : {F : Type 0} (e : EntityState F) → IsSound e → Worse e e
Worse-refl e v = record {
  hp_falls = omega arith;
  stays_dead = λ h. h;
  same_player = refl;
  sound = v;
}

Worse-trans : {F : Type 0} {d e f : EntityState F} → Worse d e → Worse e f → Worse d f
Worse-trans v w = record {
  hp_falls = let a = v.hp_falls in let b = w.hp_falls in omega arith;
  stays_dead = λ h. w.stays_dead (v.stays_dead h);
  same_player = w.same_player ∙ v.same_player;
  sound = w.sound;
}

wound-Worse : {F : Type 0} (e : EntityState F) → IsSound e → e.alive ≡ true → Worse e (wound e)
unfolding wound ◌-ℤ◌
wound-Worse e v h = record {
  hp_falls = ground arith;
  stays_dead = λ k. ground arith;
  same_player = ground arith;
  sound = record { low = ground arith; high = ground arith; lives = ground arith };
}

kill-Worse : {F : Type 0} (e : EntityState F) → IsSound e → Worse e (kill e)
unfolding kill
kill-Worse e v = record {
  hp_falls = v.low;
  stays_dead = λ k. refl;
  same_player = refl;
  sound = record { low = omega arith; high = omega arith; lives = refl };
}

-- The same players in the same order, each sound and none better off.
abbrev pub AllWorse : {F : Type 0} → Map (EntityState F) → Map (EntityState F) → Type 0
AllWorse [] [] = Unit {0}
AllWorse [] (e ∷ m) = ⊥
AllWorse (e ∷ m) [] = ⊥
AllWorse ((k, e) ∷ m) ((j, e') ∷ m') = (j ≡ k) × Worse e e' × AllWorse m m'

abbrev pub AllSound : {F : Type 0} → Map (EntityState F) → Type 0
AllSound [] = Unit {0}
AllSound ((k, e) ∷ m) = IsSound e × AllSound m

AllWorse-refl : {F : Type 0} (m : Map (EntityState F)) → AllSound m → AllWorse m m
AllWorse-refl [] v = tt
AllWorse-refl ((k, e) ∷ m) v = (refl, Worse-refl e v.0, AllWorse-refl m v.1)

AllWorse-trans :
    {F : Type 0} (l m n : Map (EntityState F)) → AllWorse l m → AllWorse m n → AllWorse l n
AllWorse-trans [] [] n v w = w
AllWorse-trans [] (e ∷ m) n v w = absurd v
AllWorse-trans (e ∷ l) [] n v w = absurd v
AllWorse-trans ((i, d) ∷ l) ((j, e) ∷ m) [] v w = absurd w
AllWorse-trans ((i, d) ∷ l) ((j, e) ∷ m) ((k, f) ∷ n) v w =
    (w.0 ∙ v.0, Worse-trans v.1 w.1, AllWorse-trans l m n v.2 w.2)

AllWorse-AllSound : {F : Type 0} (l m : Map (EntityState F)) → AllWorse l m → AllSound m
AllWorse-AllSound [] [] v = tt
AllWorse-AllSound [] (e ∷ m) v = absurd v
AllWorse-AllSound (e ∷ l) [] v = absurd v
AllWorse-AllSound ((i, d) ∷ l) ((j, e) ∷ m) v = (v.1.sound, AllWorse-AllSound l m v.2)

AllWorse-adjust :
    {F : Type 0} (p : ℕ) (f : EntityState F → EntityState F) (m : Map (EntityState F))
    → ((e : EntityState F) → IsSound e → Worse e (f e))
    → AllSound m
    → AllWorse m (adjust p f m)
unfolding adjust
AllWorse-adjust p f [] h v = tt
AllWorse-adjust p f ((k, e) ∷ m) h v =
    if_intro (AllWorse ((k, e) ∷ m)) (k == p) (λ _. (refl, h e v.0, AllWorse-refl m v.1))
      (λ _. (refl, Worse-refl e v.0, AllWorse-adjust p f m h v.1))

module _ (ops : FloatOps) where
  open ops use {Float}

  move-Worse :
      (input : InputCommand Float) (e : EntityState Float) → IsSound e → Worse e (move ops input e)
  unfolding move
  move-Worse input e v = record {
    hp_falls = omega arith;
    stays_dead = λ h. h;
    same_player = refl;
    sound = record { low = v.low; high = v.high; lives = v.lives };
  }

  fire_at-AllWorse :
      (p : ℕ) (shooter : EntityState Float) (m : Map (EntityState Float))
      → AllSound m
      → AllWorse m (fire_at ops p shooter m)
  unfolding fire_at
  fire_at-AllWorse p shooter [] v = tt
  fire_at-AllWorse p shooter ((k, e) ∷ m) v = (
    refl,
    if_intro (Worse e) (k == p || not e.alive) (λ _. Worse-refl e v.0)
        (λ h.
          if_intro (Worse e) (in_range ops shooter e) (λ _. wound-Worse e v.0 (ground arith))
            (λ _. Worse-refl e v.0)),
    fire_at-AllWorse p shooter m v.1,
  )

  apply_input-AllWorse :
      (input : InputCommand Float) (m : Map (EntityState Float))
      → AllSound m
      → AllWorse m (apply_input ops input m)
  unfolding apply_input
  apply_input-AllWorse input m v = elim (Option-cases (lookup input.player_id m)) [
    | inl e ↦ rw (e, apply_input) (AllWorse-refl m v)
    | inr (s, e) ↦
        let moved = adjust input.player_id (move ops input) m in
        let step = AllWorse-adjust input.player_id (move ops input) m (move-Worse input) v in
        rw (e, apply_input)
          (if_intro (AllWorse m) (not s.alive) (λ _. AllWorse-refl m v)
            (λ _.
              if_intro (AllWorse m) (not input.fire) (λ _. step)
                (λ _. AllWorse-trans m moved _ step (
                  fire_at-AllWorse input.player_id (move ops input s) moved
                    (AllWorse-AllSound m moved step)))))
  ]

  apply_all-AllWorse :
      (is : List (InputCommand Float)) (m : Map (EntityState Float))
      → AllSound m
      → AllWorse m (apply_all ops is m)
  unfolding apply_all
  apply_all-AllWorse [] m v = AllWorse-refl m v
  apply_all-AllWorse (i ∷ is) m v =
      let first = apply_input-AllWorse i m v in
      AllWorse-trans m (apply_input ops i m) _ first
        (apply_all-AllWorse is (apply_input ops i m) (AllWorse-AllSound m _ first))

players-check_game_over : {F : Type 0} (r : GameRoom F) → (check_game_over r).state ≡ r.state
unfolding check_game_over
players-check_game_over r = ground arith

module _ (ops : FloatOps) where
  open ops use {Float}

  -- From sound entities every call of a battle keeps the players and their order, leaves each
  -- with 0 to 100 hit points and alive exactly while it has any, gives nobody hit points and
  -- brings nobody back to life.
  pub step-AllWorse :
      (c : Call Float) (r : GameRoom Float)
      → AllSound r.state.players
      → AllWorse r.state.players (step ops c r).state.players
  unfolding step
  step-AllWorse (inputs i) r v = unfold handle_input in AllWorse-refl r.state.players v
  step-AllWorse (eliminates p) r v =
      unfold eliminate_player in
      if_intro (λ (q : GameRoom Float). AllWorse r.state.players q.state.players) r.game_over
        (λ _. AllWorse-refl r.state.players v)
        (λ _. elim (Option-cases (lookup p r.state.players)) [
          | inl e ↦ rw e (AllWorse-refl r.state.players v)
          | inr (x, e) ↦ rw e (
              if_intro (λ (q : GameRoom Float). AllWorse r.state.players q.state.players)
                (not x.alive) (λ _. AllWorse-refl r.state.players v)
                (λ _.
                  rw players-check_game_over (AllWorse-adjust p kill r.state.players kill-Worse v)))
        ])
  step-AllWorse ticks r v =
      unfold tick in
      if_intro (λ (q : GameRoom Float). AllWorse r.state.players q.state.players) r.game_over
        (λ _. AllWorse-refl r.state.players v)
        (λ _. rw players-check_game_over (apply_all-AllWorse ops r.input_buffer r.state.players v))
