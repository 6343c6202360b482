-- ===== src/Rank/Paging.antt =====
-- RankService::GetTopN: the pages of the ranking.
use cpp_game_room.Base.{
  ℕ, zero, suc, ◌+◌, ◌≡◌, refl, ap, ap₂, ◌∙◌, true, false, Option, some, List, [], ◌∷◌, arith, leb,
  take, drop, String,
}
use cpp_game_room.Base.Int.{ℤ, pos, IsInt, ◌+ℤ◌, ◌-ℤ◌}
use cpp_game_room.Storage.Redis.{
  RedisApi, zrevrange, array_reply, Client, ask, ensure_connected, receive, pairs, items_of,
  z_rev_range,
}
use cpp_game_room.Rank.{rank_score_key, RankEntry, Texts, entries_from, get_top_n}

-- The elements of a reply with scores: each member and then the text of its score.
abbrev pub elements : List (String × String) → List (Option String)
elements [] = []
elements ((member, score) ∷ rest) = some member ∷ some score ∷ elements rest

-- What Redis documents of ZREVRANGE with scores on the sorted set of the ranking: the members from
-- the first place asked for to the last one, as far as there are any, the best first.
pub record Ranked (api : RedisApi) : Type 0 where
  pub board : api.Db → List (String × String)
  pub slices :
      (first more : ℕ) (db : api.Db)
      → api.command (zrevrange rank_score_key (pos first) (pos (first + more))) db
        ≡ (db, array_reply (elements (take (suc more) (drop first (board db)))))

module _ (api : RedisApi) (texts : Texts) where
  abbrev pub scored : List (String × String) → List (String × ℤ)
  scored [] = []
  scored ((member, score) ∷ rest) = (member, api.atoi score) ∷ scored rest

  pairs-elements : (l : List (String × String)) → pairs api (elements l) ≡ scored l
  unfolding pairs
  pairs-elements [] = refl
  pairs-elements ((member, score) ∷ l) = ap (◌∷◌ (member, api.atoi score)) (pairs-elements l)

  scored-take : (n : ℕ) (l : List (String × String)) → scored (take n l) ≡ take n (scored l)
  scored-take zero l = refl
  scored-take (suc n) [] = refl
  scored-take (suc n) (x ∷ l) = ap (◌∷◌ (x.0, api.atoi x.1)) (scored-take n l)

  scored-drop : (n : ℕ) (l : List (String × String)) → scored (drop n l) ≡ drop n (scored l)
  scored-drop zero l = refl
  scored-drop (suc n) [] = refl
  scored-drop (suc n) (x ∷ l) = scored-drop n l

  -- The ranks count on from the entries before.
  entries-shift :
      (a i j : ℕ) (l : List (String × ℤ))
      → a + i ≡ j
      → entries_from api texts (pos a) i l ≡ entries_from api texts (pos 0) j l
  unfolding entries_from ◌+ℤ◌
  entries-shift a i j [] e = refl
  entries-shift a i j ((member, score) ∷ l) e =
      ap₂
        (λ (r : ℤ) (rest : List RankEntry).
          record {
            player_id = texts.strtoll member;
            name = texts.player_name member;
            score = score;
            rank = r;
          }
          ∷ rest)
        (ground (arith, e)) (entries-shift a (i + 1) (j + 1) l (omega (arith, e)))

  entries-take :
      (n i : ℕ) (l : List (String × ℤ))
      → entries_from api texts (pos 0) i (take n l) ≡ take n (entries_from api texts (pos 0) i l)
  unfolding entries_from
  entries-take zero i l = refl
  entries-take (suc n) i [] = refl
  entries-take (suc n) i ((member, score) ∷ l) =
      ap
        (◌∷◌ (record {
          player_id = texts.strtoll member;
          name = texts.player_name member;
          score = score;
          rank = (pos 0 +ℤ pos i) +ℤ pos 1;
        }))
        (entries-take n (i + 1) l)

  entries-drop :
      (n i j : ℕ) (l : List (String × ℤ))
      → i + n ≡ j
      → entries_from api texts (pos 0) j (drop n l) ≡ drop n (entries_from api texts (pos 0) i l)
  unfolding entries_from
  entries-drop zero i j l e = ap (λ k. entries_from api texts (pos 0) k l) (omega (arith, e))
  entries-drop (suc n) i j [] e = refl
  entries-drop (suc n) i j (x ∷ l) e = entries-drop n (i + 1) j l (omega (arith, e))

  -- The whole ranking, from the first place on.
  abbrev pub ranking : List (String × String) → List RankEntry
  ranking board = entries_from api texts (pos 0) 0 (scored board)

  entries-page :
      (n a : ℕ) (l : List (String × String))
      → entries_from api texts (pos a) 0 (scored (take n (drop a l))) ≡ take n (drop a (ranking l))
  entries-page n a l =
      ap (entries_from api texts (pos a) 0)
        (scored-take n (drop a l) ∙ ap (take n) (scored-drop a l))
      ∙ entries-shift a 0 a (take n (drop a (scored l))) (omega arith)
      ∙ entries-take n a (drop a (scored l))
      ∙ ap (take n) (entries-drop a 0 a (scored l) (omega arith))

  module _ (ranked : Ranked api) where
    asked :
        (a k : ℕ) (c : Client api)
        → c.context ≡ true
        → z_rev_range api rank_score_key (pos a) (pos (a + k)) c
          ≡ (c, scored (take (suc k) (drop a (ranked.board c.db))))
    unfolding z_rev_range ask ensure_connected receive items_of
    asked a k c h =
        rw (h, ranked.slices a k c.db)
          (ap (λ (l : List (String × ℤ)). (record c { context = true }, l))
            (pairs-elements (take (suc k) (drop a (ranked.board c.db)))))

    -- Where Redis keeps the members in order, as it documents of ZREVRANGE, and is connected: for
    -- an offset and a positive limit whose sum is within int, the page that GetTopN gives is the
    -- part of the whole ranking from this offset on and of at most this length, with the ranks
    -- that the entries have there.
    pub get_top_n-page :
        (a k : ℕ) (c : Client api)
        → c.context ≡ true
        → IsInt (pos a +ℤ pos (suc k))
        → get_top_n api texts true (pos a) (pos (suc k)) c
          ≡ (c, take (suc k) (drop a (ranking (ranked.board c.db))))
    unfolding get_top_n
    get_top_n-page a k c h fits =
        let stop : (pos a +ℤ pos (suc k)) -ℤ pos 1 ≡ pos (a + k) =
          unfold ◌+ℤ◌ ◌-ℤ◌ in ground arith in
        let positive : leb (suc k + 0) 0 ≡ false = ground arith in
        let front : leb (a + 1) 0 ≡ false = ground arith in
        rw (positive, front, stop, asked a k c h)
          (ap (λ (l : List RankEntry). (c, l)) (entries-page (suc k) a (ranked.board c.db)))
