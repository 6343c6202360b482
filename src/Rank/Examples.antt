-- ===== src/Rank/Examples.antt =====
-- A ranking of three on a Redis that is a list.
use Prim.Native.String.{len}
use cpp_game_room.Base.{
  ℕ, suc, ◌+◌, ◌-◌, ◌≡◌, refl, ap, true, List, [], ◌∷◌, arith, take, drop, String,
}
use cpp_game_room.Base.Int.{pos, ◌+ℤ◌}
use cpp_game_room.Storage.Redis.{RedisApi, Command, zrevrange, Reply, array_reply, no_reply}
use cpp_game_room.Rank.{Texts, get_top_n}
use cpp_game_room.Rank.Paging.{Ranked, elements, ranking, get_top_n-page}

abbrev Board : Type 0
Board = List (String × String)

abbrev answer : Command → Board → Board × Reply
answer (zrevrange key (pos first) (pos last)) db =
    (db, array_reply (elements (take (last + 1 - first) (drop first db))))
answer command db = (db, no_reply)

-- A score is as high as its text is long.
abbrev redis : RedisApi
redis = record {
  Db = Board;
  connect = λ db. (db, true);
  free = λ db. db;
  command = answer;
  atoi = λ s. pos (len s);
}

abbrev texts : Texts
texts = record { to_string = λ p. ""; strtoll = len; player_name = λ m. m }

abbrev redis_ranked : Ranked redis
redis_ranked = record {
  board = λ db. db;
  slices = λ first more db.
      let count : first + more + 1 - first ≡ suc more = omega arith in
      ap (λ (n : ℕ). (db, array_reply (elements (take n (drop first db))))) count;
}

abbrev board : Board
board = ("a", "1111") ∷ ("ab", "111") ∷ ("abc", "11") ∷ []

get_top_n-page_example :
    get_top_n redis texts true (pos 1) (pos 2) (record { context = true; db = board })
    ≡ (record { context = true; db = board }, take 2 (drop 1 (ranking redis texts board)))
get_top_n-page_example =
    get_top_n-page redis texts redis_ranked 1 1 (record { context = true; db = board }) refl
      (unfold ◌+ℤ◌ in (omega arith, omega arith))
