-- ===== src/Rank.antt =====
-- src/rank/rank_service.cpp: the ranking, kept in a sorted set of Redis.
pub mod Paging
pub mod Examples
use cpp_game_room.Base.{ℕ, ◌+◌, Bool, true, false, not, ◌||◌, List, [], ◌∷◌, if◌then◌else◌, String}
use cpp_game_room.Base.Int.{ℤ, pos, negsuc, ◌+ℤ◌, ◌-ℤ◌, leb_ℤ}
use cpp_game_room.Storage.Redis.{RedisApi, Client, z_add, z_rev_range, connect}
use cpp_game_room.Game.Settlement.{RankService}

abbrev pub rank_score_key : String
rank_score_key = "rank:score"

pub record RankEntry : Type 0 where
  pub player_id : ℕ
  pub name : String
  pub score : ℤ
  pub rank : ℤ

-- std::to_string of a player id, std::strtoll, and `"player_" + member`.
pub record Texts : Type 0 where
  pub to_string : ℕ → String
  pub strtoll : String → ℕ
  pub player_name : String → String

module _ (api : RedisApi) (texts : Texts) where
  -- Init; the first argument tells whether the pointer to Redis is set.
  unfoldable pub init : Bool → Client api → Client api × Bool
  init redis c = if not redis then (c, true) else connect api c

  unfoldable pub update_score : Bool → ℕ → ℤ → Client api → Client api × Bool
  update_score redis player_id score c =
      if not redis then (c, false) else z_add api rank_score_key score (texts.to_string player_id) c

  -- The loop over the items, from the number of those before.
  unfoldable pub entries_from : ℤ → ℕ → List (String × ℤ) → List RankEntry
  entries_from offset i [] = []
  entries_from offset i ((member, score) ∷ rest) =
      record {
        player_id = texts.strtoll member;
        name = texts.player_name member;
        score = score;
        rank = (offset +ℤ pos i) +ℤ pos 1;
      }
      ∷ entries_from offset (i + 1) rest

  -- GetTopN, for an offset and a limit whose sum is within int. The code computes `offset + limit
  -- - 1` and the ranks in int; past its bound that overflows, and the code says nothing of it.
  unfoldable pub get_top_n : Bool → ℤ → ℤ → Client api → Client api × List RankEntry
  unfolding entries_from
  get_top_n redis offset limit c =
      if not redis || leb_ℤ limit (pos 0)
      then (c, [])
      else let start = if leb_ℤ offset (negsuc 0) then pos 0 else offset in
        let stop = (start +ℤ limit) -ℤ pos 1 in
        let (c', items) = z_rev_range api rank_score_key start stop c in
        (c', entries_from start 0 items)

-- The ranking as the settlement uses it, with its pointer to Redis set.
abbrev pub rank_service : RedisApi → Texts → RankService
rank_service api texts = record {
  Store = Client api;
  update_score = λ p score c. update_score api texts true p score c;
}
