-- ===== src/Match/Queue/Examples.antt =====
-- A short history of the queue: two players join, one of them twice, and a pair is taken.
use cpp_game_room.Base.{◌≡◌, refl, true, false, List, [], ◌∷◌}
use cpp_game_room.Match.Queue.{empty, push, remove, try_pop_n, pop_n, contains, erase}
use cpp_game_room.Match.Queue.Refinement.{
  Inv, empty-Inv, Op, pushes, removes, pops, sizes, flag, players, count, run, run_fifo, step,
  run-run_fifo,
}

abbrev history : List Op
history =
    pushes 100001
    ∷ pushes 100002
    ∷ pushes 100001
    ∷ pops 3
    ∷ pushes 100003
    ∷ removes 100002
    ∷ pops 2
    ∷ sizes
    ∷ []

answers :
    (run history empty).1
    ≡ flag true
      ∷ flag true
      ∷ flag false
      ∷ players []
      ∷ flag true
      ∷ flag true
      ∷ players (100001 ∷ 100003 ∷ [])
      ∷ count 0
      ∷ []
unfolding run step push remove try_pop_n contains erase
answers = refl

pop_n_pair :
    pop_n 2 (record { queue = 5 ∷ 6 ∷ 7 ∷ []; in_queue = 7 ∷ 5 ∷ 6 ∷ [] })
    ≡ (record { queue = 7 ∷ []; in_queue = 7 ∷ [] }, 5 ∷ 6 ∷ [])
unfolding pop_n erase
pop_n_pair = refl

run-run_fifo_example :
    Inv (run history empty).0
    × ((run history empty).0.queue ≡ (run_fifo history []).0)
    × ((run history empty).1 ≡ (run_fifo history []).1)
run-run_fifo_example = run-run_fifo history empty empty-Inv
