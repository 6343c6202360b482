-- ===== src/Service/Ranking.antt =====
-- src/rank/rank_service.cpp: requests for the ranking.
use cpp_game_room.Base.{ℕ, Bool, Option, none, some}
use cpp_game_room.Base.Int.{ℤ}
use cpp_game_room.Storage.Redis.{RedisApi, Client}
use cpp_game_room.Rank.{Texts, get_top_n}
use cpp_game_room.Service.World.{World, rank_resp, send}

-- HandleRankRequest, of the offset and the limit of a request. The session is not tested for null.
unfoldable pub handle_rank_request :
    {F : Type 0} (api : RedisApi) (texts : Texts)
    → Bool
    → ℕ
    → Option (ℤ × ℤ)
    → World F × Client api
    → World F × Client api
unfolding send
handle_rank_request api texts redis s none state = state
handle_rank_request api texts redis s (some (offset, limit)) (w, c) =
    let (c', items) = get_top_n api texts redis offset limit c in (send s (rank_resp items) w, c')
