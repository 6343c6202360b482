-- ===== src/Storage/Battles/Checked.antt =====
-- What ApplySettlement checks before its transaction.
use cpp_game_room.Base.{
  ℕ, suc, ◌<◌, ◌≡◌, refl, ap, ◌∙◌, Bool, not, ◌||◌, Option, none, some, List, [], ◌∷◌, arith,
  if_intro, length, is_positive64, leb,
}
use cpp_game_room.Storage.Statement.{Battle, BattlePlayerResult}
use cpp_game_room.Storage.Battles.{insert_sorted, sort_results, one_winner, checked_results, ltb64}

length-insert_sorted :
    (x : BattlePlayerResult) (xs : List BattlePlayerResult)
    → length (insert_sorted x xs) ≡ suc (length xs)
unfolding insert_sorted
length-insert_sorted x [] = refl
length-insert_sorted x (y ∷ ys) =
    if_intro (λ (r : List BattlePlayerResult). length r ≡ suc (suc (length ys)))
      (ltb64 y.player_id x.player_id) (λ _. ap suc (length-insert_sorted x ys)) (λ _. refl)

length-sort_results : (xs : List BattlePlayerResult) → length (sort_results xs) ≡ length xs
unfolding sort_results
length-sort_results [] = refl
length-sort_results (x ∷ xs) =
    length-insert_sorted x (sort_results xs) ∙ ap suc (length-sort_results xs)

one_winner-eq-some :
    (xs ordered : List BattlePlayerResult) (o : Option ℕ)
    → one_winner xs o ≡ some ordered
    → ordered ≡ xs
unfolding one_winner
one_winner-eq-some xs ordered none h = cc
one_winner-eq-some xs ordered (some n) h = ground arith

pub checked_results-eq-some :
    (mysql : Bool) (battle : Battle) (results ordered : List BattlePlayerResult)
    → checked_results mysql battle results ≡ some ordered
    → (ordered ≡ sort_results results) × (0 < length ordered)
unfolding checked_results
checked_results-eq-some mysql battle results ordered h =
    if_intro
      (λ (r : Option (List BattlePlayerResult)).
        r ≡ some ordered → (ordered ≡ sort_results results) × (0 < length ordered))
      (not mysql
        || not (is_positive64 battle.battle_id)
        || not (is_positive64 battle.room_id)
        || not (is_positive64 battle.winner_id)
        || leb (length results) 0)
      (λ _ k. absurd (cc k))
      (λ more k.
        let e = one_winner-eq-some (sort_results results) ordered _ k in
        (e, ground (arith, ap length e, length-sort_results results)))
      h
