-- ===== src/Game/Settlement/Accepted.antt =====
-- The results that SettleBattle builds pass the checks of ApplySettlement.
use cpp_game_room.Base.{
  ℕ, suc, ◌<◌, ◌≡◌, ◌≢◌, refl, sym, ap, ◌∙◌, true, false, some, List, All, [], ◌∷◌, ◌==◌,
  if◌then◌else◌, arith, is_positive64,
}
use cpp_game_room.Storage.Statement.{BattlePlayerResult}
use cpp_game_room.Storage.Battles.{ltb64, insert_sorted, sort_results, checked_results}
use cpp_game_room.Storage.Battles.Sheet.{IsSheet, IsRight, Rises, winners, checked_results_iff}
use cpp_game_room.Game.Settlement.Participants.{
  Participants, Up, ltb64_small, insert_set-Up, add_losers-Participants,
}
use cpp_game_room.Game.Settlement.{insert_set, add_losers, result_of, results_of, battle_of}

abbrev count_id : ℕ → List ℕ → ℕ
count_id w [] = 0
count_id w (x ∷ xs) = let rest = count_id w xs in if x == w then suc rest else rest

count_id-insert_set : (w x : ℕ) (xs : List ℕ) → x ≢ w → count_id w (insert_set x xs) ≡ count_id w xs
unfolding insert_set
count_id-insert_set w x [] h = ground arith
count_id-insert_set w x (y ∷ ys) h = ground (arith, count_id-insert_set w x ys h)

-- A loser that SettleBattle accepts.
abbrev pub IsLoser : ℕ → ℕ → Type 0
IsLoser winner_id p = (is_positive64 p ≡ true) × (p ≢ winner_id)

record Counted (winner_id : ℕ) (ps : List ℕ) : Type 0 where
  up : Up 0 ps
  one : count_id winner_id ps ≡ 1

add_losers-Counted :
    (w : ℕ) (ps losers : List ℕ)
    → Counted w ps
    → All (IsLoser w) losers
    → (qs : List ℕ) × (add_losers w ps losers ≡ some qs) × Counted w qs
unfolding add_losers
add_losers-Counted w ps [] h a = (ps, refl, h)
add_losers-Counted w ps (x ∷ xs) h a =
    let next =
      add_losers-Counted w (insert_set x ps) xs
        (record {
          up = insert_set-Up 0 x ps (ground arith) (ground arith) h.up;
          one = count_id-insert_set w x ps a.0.1 ∙ h.one;
        })
        a.1 in
    (next.0, ground (arith, next.1), next.2)

results_of-Rises :
    (b w p : ℕ) (ps : List ℕ) → p < 9223372036854775808 → Up p ps → Rises p (results_of b w ps)
unfolding results_of result_of
results_of-Rises b w p [] h u = tt
results_of-Rises b w p (x ∷ xs) h u =
    let l = ltb64_small p x h u.1 in (l ∙ ground arith, results_of-Rises b w x xs u.1 u.2)

results_of-IsRight : (b r w : ℕ) (ps : List ℕ) → All (IsRight (battle_of b r w)) (results_of b w ps)
unfolding results_of result_of
results_of-IsRight b r w [] = tt
results_of-IsRight b r w (x ∷ xs) = ((refl, refl, refl), results_of-IsRight b r w xs)

winners-results_of :
    (b r w : ℕ) (ps : List ℕ) → winners (battle_of b r w) (results_of b w ps) ≡ count_id w ps
unfolding results_of result_of
winners-results_of b r w [] = refl
winners-results_of b r w (x ∷ xs) = ground (arith, winners-results_of b r w xs)

insert_sorted-front :
    (x y : BattlePlayerResult) (ys : List BattlePlayerResult)
    → ltb64 y.player_id x.player_id ≡ false
    → insert_sorted x (y ∷ ys) ≡ x ∷ y ∷ ys
unfolding insert_sorted
insert_sorted-front x y ys h = ground arith

insert_sorted-one : (x : BattlePlayerResult) → insert_sorted x [] ≡ x ∷ []
unfolding insert_sorted
insert_sorted-one x = refl

results-order :
    (b w x y : ℕ)
    → x < 9223372036854775808
    → y < 9223372036854775808
    → x < y
    → ltb64 (result_of b w y).player_id (result_of b w x).player_id ≡ false
unfolding result_of
results-order b w x y h k l = ltb64_small y x k h ∙ ground arith

pub sort_results-results_of :
    (b w p : ℕ) (ps : List ℕ) → Up p ps → sort_results (results_of b w ps) ≡ results_of b w ps
unfolding sort_results results_of
sort_results-results_of b w p [] u = refl
sort_results-results_of b w p (x ∷ []) u = insert_sorted-one (result_of b w x)
sort_results-results_of b w p (x ∷ y ∷ ys) u =
    ap (insert_sorted (result_of b w x)) (sort_results-results_of b w x (y ∷ ys) u.2)
    ∙ insert_sorted-front (result_of b w x) (result_of b w y) (results_of b w ys)
        (results-order b w x y u.1 u.2.1 u.2.0)

Counted-IsSheet :
    (b r w : ℕ) (ps : List ℕ)
    → is_positive64 b ≡ true
    → is_positive64 r ≡ true
    → is_positive64 w ≡ true
    → Counted w ps
    → IsSheet (battle_of b r w) (results_of b w ps)
Counted-IsSheet b r w ps hb hr hw h = record {
  battle_id = hb;
  room_id = hr;
  winner_id = hw;
  rises =
      rw (sort_results-results_of b w 0 ps h.up) (results_of-Rises b w 0 ps (ground arith) h.up);
  right = results_of-IsRight b r w ps;
  one = winners-results_of b r w ps ∙ h.one;
}

-- With positive ids, and losers with positive ids who are not the winner, in any order and with
-- repetitions, SettleBattle finds the participants, who are exactly the winner and the losers,
-- each once and in order of their ids, and the results that it builds for them pass all checks of
-- ApplySettlement unchanged.
pub add_losers-checked_results :
    (b r w : ℕ) (losers : List ℕ)
    → is_positive64 b ≡ true
    → is_positive64 r ≡ true
    → is_positive64 w ≡ true
    → All (IsLoser w) losers
    → (ps : List ℕ) × (add_losers w (w ∷ []) losers ≡ some ps)
      × Participants w losers ps
      × (checked_results true (battle_of b r w) (results_of b w ps) ≡ some (results_of b w ps))
add_losers-checked_results b r w losers hb hr hw a =
    let x =
      add_losers-Counted w (w ∷ []) losers
        (record { up = (ground arith, ground arith, tt); one = ground arith }) a in
    (
      x.0,
      x.1,
      add_losers-Participants w losers x.0 hw x.1,
      (checked_results_iff (battle_of b r w) (results_of b w x.0) (results_of b w x.0)).1
          (Counted-IsSheet b r w x.0 hb hr hw x.2, sym (sort_results-results_of b w 0 x.0 x.2.up)),
    )
