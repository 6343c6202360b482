-- ===== src/Game/Battle/Survivors.antt =====
-- Who is alive: a battle of two or more ends with exactly one survivor, the winner.
use cpp_game_room.Base.{
  ℕ, ◌+◌, ◌≤◌, ◌≡◌, ◌≢◌, refl, ◌∙◌, inl, inr, true, false, not, some, List, [], ◌∷◌, if◌then◌else◌,
  arith, length, if_intro, ==_refl, ne_test, Option-cases,
}
use cpp_game_room.Base.Int.{pos}
use cpp_game_room.Base.Map.{Map, lookup, insert, adjust, lookup-adjust}
use cpp_game_room.Game.Float.{FloatOps}
use cpp_game_room.Game.State.{EntityState, InputCommand}
use cpp_game_room.Game.Battle.{
  GameRoom, count_alive, is_empty, check_game_over, kill, eliminate_player, handle_input, spawn,
  start, move, fire_at, apply_input, apply_all, tick,
}

-- The ids of the living, in iteration order.
unfoldable pub living : {F : Type 0} → Map (EntityState F) → List ℕ
living [] = []
living ((k, e) ∷ m) = let rest = living m in if e.alive then k ∷ rest else rest

abbrev pub last_of : ℕ → List ℕ → ℕ
last_of d [] = d
last_of d (x ∷ xs) = last_of x xs

count_alive-living :
    {F : Type 0} (n last : ℕ) (m : Map (EntityState F))
    → count_alive n last m ≡ (n + length (living m), last_of last (living m))
unfolding count_alive living
count_alive-living n last [] = ground arith
count_alive-living n last ((k, e) ∷ m) =
    ground
      (arith, count_alive-living (if e.alive then n + 1 else n) (if e.alive then k else last) m)

living-empty : {F : Type 0} (m : Map (EntityState F)) → is_empty m ≡ true → living m ≡ []
unfolding living
living-empty [] h = refl
living-empty (e ∷ m) h = cc

-- An elimination takes exactly one of the living.
length-living-kill :
    {F : Type 0} (p : ℕ) (e : EntityState F) (m : Map (EntityState F))
    → lookup p m ≡ some e
    → e.alive ≡ true
    → length (living (adjust p kill m)) + 1 ≡ length (living m)
unfolding living lookup adjust kill
length-living-kill p e [] h k = cc
length-living-kill p e ((j, v) ∷ m) h k = ground (arith, length-living-kill p e m)

length-living-pos :
    {F : Type 0} (p : ℕ) (e : EntityState F) (m : Map (EntityState F))
    → lookup p m ≡ some e
    → e.alive ≡ true
    → 1 ≤ length (living m)
unfolding living lookup
length-living-pos p e [] h k = cc
length-living-pos p e ((j, v) ∷ m) h k = ground (arith, length-living-pos p e m)

module _ (ops : FloatOps) where
  open ops use {Float}

  living-move :
      (p : ℕ) (input : InputCommand Float) (m : Map (EntityState Float))
      → living (adjust p (move ops input) m) ≡ living m
  unfolding living adjust move
  living-move p input [] = refl
  living-move p input ((j, v) ∷ m) = ground (arith, living-move p input m)

  -- A shot leaves the shooter's own entry alone.
  lookup-fire_at_self :
      (p : ℕ) (shooter : EntityState Float) (m : Map (EntityState Float))
      → lookup p (fire_at ops p shooter m) ≡ lookup p m
  unfolding lookup fire_at
  lookup-fire_at_self p shooter [] = refl
  lookup-fire_at_self p shooter ((j, v) ∷ m) = ground (arith, lookup-fire_at_self p shooter m)

  lookup-move :
      (input : InputCommand Float) (e : EntityState Float) (m : Map (EntityState Float))
      → lookup input.player_id m ≡ some e
      → lookup input.player_id (adjust input.player_id (move ops input) m) ≡ some (move ops input e)
  lookup-move input e m h =
      lookup-adjust input.player_id input.player_id (move ops input) m ∙ rw (==_refl, h)

  alive-move :
      (input : InputCommand Float) (e : EntityState Float) → (move ops input e).alive ≡ e.alive
  unfolding move
  alive-move input e = refl

  -- An input leaves somebody alive if somebody was: only the living shoot, and never themselves.
  apply_input-survivor :
      (input : InputCommand Float) (m : Map (EntityState Float))
      → 1 ≤ length (living m)
      → 1 ≤ length (living (apply_input ops input m))
  unfolding apply_input
  apply_input-survivor input m h = elim (Option-cases (lookup input.player_id m)) [
    | inl e ↦ rw (e, apply_input) h
    | inr (v, e) ↦
        let p = input.player_id in
        let moved = adjust p (move ops input) m in
        let shot = fire_at ops p (move ops input v) moved in
        ground (
          arith,
          living-move p input m,
          lookup-move input v m e,
          alive-move input v,
          lookup-fire_at_self p (move ops input v) moved,
          length-living-pos p (move ops input v) shot,
        )
  ]

  apply_all-survivor :
      (inputs : List (InputCommand Float)) (m : Map (EntityState Float))
      → 1 ≤ length (living m)
      → 1 ≤ length (living (apply_all ops inputs m))
  unfolding apply_all
  apply_all-survivor [] m h = h
  apply_all-survivor (input ∷ inputs) m h =
      apply_all-survivor inputs (apply_input ops input m) (apply_input-survivor input m h)

-- The state of a battle of two or more: it goes on while two are alive, and it is over once a
-- single one is left, who is the winner.
pub record Fair {F : Type 0} (r : GameRoom F) : Type 0 where
  pub goes_on : r.game_over ≡ false → 2 ≤ length (living r.state.players)
  pub ends : r.game_over ≡ true → living r.state.players ≡ r.winner_id ∷ []

singleton : (d : ℕ) (l : List ℕ) → 1 ≤ length l → length l ≤ 1 → l ≡ last_of d l ∷ []
singleton d [] h k = absurd (omega arith)
singleton d (x ∷ []) h k = refl
singleton d (x ∷ y ∷ l) h k = absurd (omega arith)

-- The verdict over a state with somebody alive.
check_game_over-Fair :
    {F : Type 0} (r : GameRoom F)
    → r.game_over ≡ false
    → 1 ≤ length (living r.state.players)
    → Fair (check_game_over r)
unfolding check_game_over
check_game_over-Fair {F} r h n =
    let l = living r.state.players in
    record {
      goes_on =
          λ g. ground (arith, count_alive-living 0 0 r.state.players, living-empty r.state.players);
      ends = λ g. ground (
        arith,
        count_alive-living 0 0 r.state.players,
        living-empty r.state.players,
        singleton 0 l,
      );
    }

-- What the server calls on a running battle.
pub data Call (F : Type 0) : Type 0 where
  inputs : InputCommand F → Call F
  eliminates : ℕ → Call F
  ticks : Call F

module _ (ops : FloatOps) where
  open ops use {Float, lit_0, lit_5, add}

  unfoldable pub step : Call Float → GameRoom Float → GameRoom Float
  step (inputs i) r = handle_input i r
  step (eliminates p) r = eliminate_player p r
  step ticks r = tick ops r

  unfoldable pub run : List (Call Float) → GameRoom Float → GameRoom Float
  run [] r = r
  run (c ∷ cs) r = run cs (step c r)

  tick-Fair : (r : GameRoom Float) → Fair r → Fair (tick ops r)
  unfolding tick
  tick-Fair r v =
      if_intro Fair r.game_over (λ over. record { goes_on = v.goes_on; ends = v.ends })
        (λ on. check_game_over-Fair _ on (
          apply_all-survivor ops r.input_buffer r.state.players
            (let two = v.goes_on on in omega arith)))

  eliminate_player-Fair : (p : ℕ) (r : GameRoom Float) → Fair r → Fair (eliminate_player p r)
  unfolding eliminate_player
  eliminate_player-Fair p r v =
      if_intro Fair r.game_over (λ over. v)
        (λ on. elim (Option-cases (lookup p r.state.players)) [
          | inl e ↦ rw e v
          | inr (x, e) ↦ rw e (
              if_intro Fair (not x.alive) (λ dead. v)
                (λ alive. check_game_over-Fair _ on (
                  let two = v.goes_on on in
                  omega (arith, length-living-kill p x r.state.players e (ground arith)))))
        ])

  pub step-Fair : (c : Call Float) (r : GameRoom Float) → Fair r → Fair (step c r)
  unfolding step
  step-Fair (inputs i) r v = unfold handle_input in record { goes_on = v.goes_on; ends = v.ends }
  step-Fair (eliminates p) r v = eliminate_player-Fair p r v
  step-Fair ticks r v = tick-Fair r v

  run-Fair : (cs : List (Call Float)) (r : GameRoom Float) → Fair r → Fair (run cs r)
  unfolding run
  run-Fair [] r v = v
  run-Fair (c ∷ cs) r v = run-Fair cs (step c r) (step-Fair c r v)

  -- Everybody spawns alive, so spawning more players does not make fewer alive.
  length-living-insert :
      (p : ℕ) (e : EntityState Float) (m : Map (EntityState Float))
      → e.alive ≡ true
      → length (living m) ≤ length (living (insert p e m))
  unfolding living insert
  length-living-insert p e [] h = omega arith
  length-living-insert p e ((j, v) ∷ m) h = ground (arith, length-living-insert p e m)

  spawn-living :
      (x : Float) (ps : List ℕ) (m : Map (EntityState Float))
      → length (living m) ≤ length (living (spawn ops x ps m))
  unfolding spawn
  spawn-living x [] m = omega arith
  spawn-living x (p ∷ ps) m =
      let e : EntityState Float = record {
        player_id = p;
        x = x;
        y = lit_0;
        hp = pos 100;
        alive = true;
      } in
      omega (arith, length-living-insert p e m refl, spawn-living (add x lit_5) ps (insert p e m))

  two_or_more :
      (p q : ℕ) (e f : EntityState Float) {m : ℕ}
      → length (living ((p, e) ∷ (q, f) ∷ [])) ≤ m
      → e.alive ≡ true
      → f.alive ≡ true
      → 2 ≤ m
  unfolding living
  two_or_more p q e f h a b = ground arith

  start-Fair :
      (p q : ℕ) (rest : List ℕ) (r : GameRoom Float) → p ≢ q → Fair (start ops (p ∷ q ∷ rest) r)
  unfolding start spawn insert
  start-Fair p q rest r h =
      let e : EntityState Float = record {
        player_id = p;
        x = lit_0;
        y = lit_0;
        hp = pos 100;
        alive = true;
      } in
      let f : EntityState Float = record {
        player_id = q;
        x = add lit_0 lit_5;
        y = lit_0;
        hp = pos 100;
        alive = true;
      } in
      record {
        goes_on = λ g. rw (ne_test p q h) (
            two_or_more p q e f
              (spawn-living (add (add lit_0 lit_5) lit_5) rest ((p, e) ∷ (q, f) ∷ [])) refl refl);
        ends = λ g. cc;
      }

  -- A battle started with at least two different players goes on while two or more are alive, and
  -- once it is over exactly one is alive, who is the winner, whatever inputs, eliminations and
  -- ticks come and in whatever order.
  pub run-start-Fair :
      (p q : ℕ) (rest : List ℕ) (r : GameRoom Float) (cs : List (Call Float))
      → p ≢ q
      → Fair (run cs (start ops (p ∷ q ∷ rest) r))
  run-start-Fair p q rest r cs h = run-Fair cs _ (start-Fair p q rest r h)
