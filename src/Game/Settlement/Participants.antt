-- ===== src/Game/Settlement/Participants.antt =====
-- Who takes part in a settlement, and the result of each, described without the code's loops.
use cpp_game_room.Base.{
  ℕ, ◌<◌, ◌≡◌, refl, ap, Bool, true, false, not, ◌||◌, some, List, [], ◌∷◌, map, ◌==◌,
  if◌then◌else◌, arith, if_intro, is_positive64, ltb, Option, subst,
}
use cpp_game_room.Base.Int.{pos, negsuc}
use cpp_game_room.Storage.Statement.{BattlePlayerResult}
use cpp_game_room.Storage.Battles.{ltb64}
use cpp_game_room.Game.Settlement.{insert_set, add_losers, result_of, results_of}

abbrev pub occurs : ℕ → List ℕ → Bool
occurs p [] = false
occurs p (x ∷ xs) = x == p || occurs p xs

-- Ids above `p` that rise below 2 ^ 63.
abbrev pub Up : ℕ → List ℕ → Type 0
Up p [] = Unit {0}
Up p (x ∷ xs) = (p < x) × (x < 9223372036854775808) × Up x xs

-- The ids are positive and each stands there once: the winner, and all of `others`.
pub record Participants (winner_id : ℕ) (others ps : List ℕ) : Type 0 where
  pub once : Up 0 ps
  pub whole : (p : ℕ) → occurs p ps ≡ (winner_id == p || occurs p others)

-- 20 points for the winner, 10 less for everybody else.
abbrev pub result_for : ℕ → ℕ → ℕ → BattlePlayerResult
result_for b w p = record {
  battle_id = b;
  player_id = p;
  result = if p == w then "WIN" else "LOSE";
  score_delta = if p == w then pos 20 else negsuc 9;
}

pub results_of-map : (b w : ℕ) (ps : List ℕ) → results_of b w ps ≡ map (result_for b w) ps
unfolding results_of result_of
results_of-map b w [] = refl
results_of-map b w (p ∷ ps) = ap (◌∷◌ (result_for b w p)) (results_of-map b w ps)

pub ltb64_small :
    (a b : ℕ) → a < 9223372036854775808 → b < 9223372036854775808 → ltb64 a b ≡ ltb a b
ltb64_small a b h k = ground arith

pub insert_set-Up :
    (p x : ℕ) (xs : List ℕ) → p < x → x < 9223372036854775808 → Up p xs → Up p (insert_set x xs)
unfolding insert_set
insert_set-Up p x [] h k u = (h, k, tt)
insert_set-Up p x (y ∷ ys) h k u =
    if_intro (Up p) (x == y) (λ _. u)
      (λ other.
        if_intro (Up p) (ltb64 x y)
          (λ less. let l = ltb64_small x y k u.1 in (h, k, (ground arith, u.1, u.2)))
          (λ not_less.
            let l = ltb64_small x y k u.1 in (u.0, u.1, insert_set-Up y x ys (ground arith) k u.2)))

occurs-insert_set : (p x : ℕ) (xs : List ℕ) → occurs p (insert_set x xs) ≡ (x == p || occurs p xs)
unfolding insert_set
occurs-insert_set p x [] = refl
occurs-insert_set p x (y ∷ ys) = let h = occurs-insert_set p x ys in ground arith

-- What the loop over the losers collects.
pub record Collected (ps losers qs : List ℕ) : Type 0 where
  pub once : Up 0 qs
  pub whole : (p : ℕ) → occurs p qs ≡ (occurs p ps || occurs p losers)

pub add_losers-Collected :
    (w : ℕ) (ps losers qs : List ℕ)
    → Up 0 ps
    → add_losers w ps losers ≡ some qs
    → Collected ps losers qs
unfolding add_losers
add_losers-Collected w ps [] qs u e =
    let same : ps ≡ qs = cc e in
    record { once = subst (Up 0) same u; whole = λ p. let h = ap (occurs p) same in ground arith }
add_losers-Collected w ps (x ∷ xs) qs u e =
    if_intro (λ (o : Option (List ℕ)). o ≡ some qs → Collected ps (x ∷ xs) qs)
      (not (is_positive64 x) || x == w) (λ bad k. absurd (cc k))
      (λ good k.
        let c =
          add_losers-Collected w (insert_set x ps) xs qs
            (insert_set-Up 0 x ps (ground arith) (ground arith) u) k in
        record {
          once = c.once;
          whole = λ p. let h = c.whole p in let i = occurs-insert_set p x ps in ground arith;
        })
      e

pub add_losers-Participants :
    (w : ℕ) (losers ps : List ℕ)
    → is_positive64 w ≡ true
    → add_losers w (w ∷ []) losers ≡ some ps
    → Participants w losers ps
add_losers-Participants w losers ps h e =
    let c = add_losers-Collected w (w ∷ []) losers ps (ground arith, ground arith, tt) e in
    record { once = c.once; whole = λ p. let k = c.whole p in ground arith }
