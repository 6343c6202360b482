-- ===== src/Timer/Examples.antt =====
-- The timer at concrete times: rounds every 10 milliseconds or so.
use cpp_game_room.Base.{ℕ, ◌≡◌, ◌==◌, Bool, refl, List, [], ◌∷◌, ◌++◌, arith}
use cpp_game_room.Timer.{
  TimerTask, add_timer, run_due, reschedule, calls, Spaced, last_of, add_timer-Spaced,
}

abbrev times : List ℕ
times = 110 ∷ 119 ∷ 128 ∷ 138 ∷ 147 ∷ []

-- Callbacks are numbers; the one of the task is 7.
abbrev is_seven : ℕ → Bool
is_seven c = c == 7

-- A task that is due in each round and stands before the other one.
abbrev earlier : List (TimerTask ℕ)
earlier = record { interval_ms = 5; callback = 3; next_run = 101 } ∷ []

-- An interval of 25, from the time 100.
called : calls is_seven times (add_timer 25 7 100 earlier ++ []) ≡ 128 ∷ []
unfolding add_timer run_due reschedule
called = refl

add_timer-Spaced_example :
    Spaced 25 10 (last_of 100 times) 100 (calls is_seven times (add_timer 25 7 100 earlier ++ []))
add_timer-Spaced_example = add_timer-Spaced 10 is_seven 25 7 times earlier [] 100 refl refl refl (
  omega arith,
  omega arith,
  (
    omega arith,
    omega arith,
    (omega arith, omega arith, (omega arith, omega arith, (omega arith, omega arith, tt))),
  ),
)
