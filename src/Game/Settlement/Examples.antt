-- ===== src/Game/Settlement/Examples.antt =====
-- A battle of three is settled, on the server of the storage examples and a ranking that takes
-- every score.
use cpp_game_room.Base.{ℕ, ◌≡◌, refl, true, some, arith, List, [], ◌∷◌}
use cpp_game_room.Base.Int.{ℤ}
use cpp_game_room.Storage.Battles.{checked_results}
use cpp_game_room.Storage.Battles.Server.{
  server, server_laws, client, client-Outside, client-Outside,
}
use cpp_game_room.Game.Settlement.{
  RankService, insert_set, add_losers, results_of, battle_of, settle_battle,
}
use cpp_game_room.Game.Settlement.Participants.{Participants}
use cpp_game_room.Game.Settlement.Accepted.{add_losers-checked_results}
use cpp_game_room.Game.Settlement.Safe.{Settles, settle_battle-Settles}

abbrev ranking : RankService
ranking = record { Store = List (ℕ × ℤ); update_score = λ p score s. ((p, score) ∷ s, true) }

participants : add_losers 5 (5 ∷ []) (9 ∷ 3 ∷ 9 ∷ []) ≡ some (3 ∷ 5 ∷ 9 ∷ [])
unfolding add_losers insert_set
participants = refl

add_losers-checked_results_example :
    (ps : List ℕ) × (add_losers 5 (5 ∷ []) (9 ∷ 3 ∷ 9 ∷ []) ≡ some ps)
    × Participants 5 (9 ∷ 3 ∷ 9 ∷ []) ps
    × (checked_results true (battle_of 7 100001 5) (results_of 7 5 ps) ≡ some (results_of 7 5 ps))
add_losers-checked_results_example =
    add_losers-checked_results 7 100001 5 (9 ∷ 3 ∷ 9 ∷ []) refl refl refl
      ((refl, λ e. ground arith), ((refl, λ e. ground arith), ((refl, λ e. ground arith), tt)))

settle_battle-Settles_example :
    Settles server server_laws ranking 7 100001 5 (9 ∷ 3 ∷ []) (client []) (
      settle_battle server ranking
        (some true)
        (some true)
        true
        7
        100001
        5
        (9 ∷ 3 ∷ [])
        (client [])
        [])
settle_battle-Settles_example =
    settle_battle-Settles server server_laws ranking (some true) (some true) true 7 100001 5
      (9 ∷ 3 ∷ []) (client []) [] (client-Outside [])
