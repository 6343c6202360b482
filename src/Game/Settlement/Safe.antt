-- ===== src/Game/Settlement/Safe.antt =====
-- What SettleBattle does to the committed tables.
use cpp_game_room.Base.{
  ℕ, ◌≡◌, ◌⊎◌, refl, ◌∙◌, subst, sym, inl, inr, Bool, true, false, not, ◌||◌, ◌&&◌, Option, none,
  some, List, [], ◌∷◌, map, arith, if_intro, Option-cases, is_positive64,
}
use cpp_game_room.Storage.Mysql.{MysqlApi, Client}
use cpp_game_room.Storage.Players.{find_player}
use cpp_game_room.Storage.Battles.{sort_results, apply_settlement}
use cpp_game_room.Storage.Battles.Tables.{Tables, Transactional, Outside}
use cpp_game_room.Storage.Battles.Verdict.{Settlement}
use cpp_game_room.Storage.Battles.Outcome.{Idle, Outcome}
use cpp_game_room.Storage.Battles.Reading.{Idle-refl, Idle-trans, find_player-Idle}
use cpp_game_room.Storage.Battles.Once.{apply_settlement-Outcome}
use cpp_game_room.Game.Settlement.Participants.{
  Participants, result_for, results_of-map, add_losers-Participants,
}
use cpp_game_room.Game.Settlement.Accepted.{sort_results-results_of}
use cpp_game_room.Game.Settlement.{
  RankService, is_none, add_losers, results_of, battle_of, sync_ranks, sync_players,
  after_settlement, settle_battle,
}

-- One settlement of the battle, with the results of the winner and the losers, each once.
abbrev pub SettledFor : ℕ → ℕ → ℕ → List ℕ → Tables → Tables → Type 0
SettledFor b r w losers t t' =
    (ps : List ℕ) × Participants w losers ps
    × Settlement (battle_of b r w) (map (result_for b w) ps) t t'

-- The results as SettleBattle builds and ApplySettlement sorts them.
results-in_order :
    (b w : ℕ) (losers ps : List ℕ)
    → Participants w losers ps
    → sort_results (results_of b w ps) ≡ map (result_for b w) ps
results-in_order b w losers ps h = sort_results-results_of b w 0 ps h.once ∙ results_of-map b w ps

positive_winner :
    (refused : Bool) (b r w : ℕ)
    → (refused || not (is_positive64 b) || not (is_positive64 r) || not (is_positive64 w)) ≡ false
    → is_positive64 w ≡ true
positive_winner refused b r w h = ground arith

module _ (api : MysqlApi) (laws : Transactional api) (ranks : RankService) where
  open laws use {durable}
  open ranks use {Store}

  abbrev pub Answer : Type 0
  Answer = (Client api × Store) × Option Bool

  sync_ranks-Idle :
      (mysql : Bool) (ps : List ℕ) (c : Client api) (s : Store)
      → Outside api laws c
      → Idle api laws c (sync_ranks api ranks mysql ps c s).0.0
  unfolding sync_ranks
  sync_ranks-Idle mysql [] c s h = Idle-refl api laws c h
  sync_ranks-Idle mysql (p ∷ ps) c s h =
      let i = find_player-Idle api laws mysql p c h in
      let c' = (find_player api mysql p c).0 in
      elim (Option-cases (find_player api mysql p c).1) [
        | inl e ↦ rw (e, sync_ranks) i
        | inr (d, e) ↦
            rw (e, sync_ranks)
              (if_intro (λ (r : (Client api × Store) × Bool). Idle api laws c r.0.0)
                (not (ranks.update_score p d.score s).1) (λ _. i)
                (λ _. Idle-trans api laws i (sync_ranks-Idle mysql ps c' _ i.outside)))
      ]

  sync_players-Idle :
      (players : Option Bool) (ps : List ℕ) (c : Client api) (s : Store)
      → Outside api laws c
      → Idle api laws c (sync_players api ranks players ps c s).0.0
  unfolding sync_players
  sync_players-Idle none ps c s h = Idle-refl api laws c h
  sync_players-Idle (some mysql) ps c s h = sync_ranks-Idle mysql ps c s h

  -- After the settlement nothing more is committed, and success needs the success of before.
  record After (c : Client api) (o : Option Bool) (r : Answer) : Type 0 where
    idle : Idle api laws c r.0.0
    before : r.1 ≡ some true → o ≡ some true

  after_settlement-After :
      (has_ranks : Bool) (players : Option Bool) (ps : List ℕ) (o : Option Bool) (c : Client api)
      (s : Store)
      → Outside api laws c
      → After c o (after_settlement api ranks has_ranks players ps o c s)
  unfolding after_settlement
  after_settlement-After has_ranks players ps none c s h = record {
    idle = Idle-refl api laws c h;
    before = λ e. e;
  }
  after_settlement-After has_ranks players ps (some false) c s h = record {
    idle = Idle-refl api laws c h;
    before = λ e. e;
  }
  after_settlement-After has_ranks players ps (some true) c s h =
      if_intro (After c (some true)) (not has_ranks)
        (λ _. record { idle = Idle-refl api laws c h; before = λ e. refl })
        (λ _. record { idle = sync_players-Idle players ps c s h; before = λ e. refl })

  -- What a call of SettleBattle does: the connection is outside of a transaction, the committed
  -- tables are as before or have one settlement, and success means that settlement.
  pub record Settles (b r w : ℕ) (losers : List ℕ) (c : Client api) (a : Answer) : Type 0 where
    pub outside : Outside api laws a.0.0
    pub safe :
        (durable a.0.0.db ≡ durable c.db)
        ⊎ SettledFor b r w losers (durable c.db) (durable a.0.0.db)
    pub sure : a.1 ≡ some true → SettledFor b r w losers (durable c.db) (durable a.0.0.db)

  Settles-refused :
      (b r w : ℕ) (losers : List ℕ) (c : Client api) (s : Store)
      → Outside api laws c
      → Settles b r w losers c ((c, s), some false)
  Settles-refused b r w losers c s h = record {
    outside = h;
    safe = inl refl;
    sure = λ e. absurd (cc e);
  }

  Settles-After :
      (b r w : ℕ) (losers ps : List ℕ) (c d : Client api) (o : Option Bool) (a : Answer)
      → Participants w losers ps
      → Outcome api laws (battle_of b r w) (map (result_for b w) ps) c (d, o)
      → After d o a
      → Settles b r w losers c a
  Settles-After b r w losers ps c d o a h out after =
      let move : Settlement (battle_of b r w) (map (result_for b w) ps) (durable c.db)
            (durable d.db)
          → SettledFor b r w losers (durable c.db) (durable a.0.0.db) =
        λ s. (
          ps,
          h,
          subst (Settlement (battle_of b r w) (map (result_for b w) ps) (durable c.db))
              (sym after.idle.same) s,
        ) in
      record {
        outside = after.idle.outside;
        safe = elim out.safe [ inl same ↦ inl (after.idle.same ∙ same) | inr s ↦ inr (move s) ];
        sure = λ k. move (out.sure (after.before k));
      }

  -- On a server whose transactions behave as documented, a call of SettleBattle outside of a
  -- transaction, with nothing uncommitted on the connection, whatever the repositories, the
  -- ranking and the ids are and whatever fails, ends so again, with the committed tables as they
  -- were or with one settlement done, whose results are 20 points for the winner and 10 less for
  -- each of the losers, each player once; where it reports success the settlement is there for
  -- sure.
  pub settle_battle-Settles :
      (battles players : Option Bool) (has_ranks : Bool) (b r w : ℕ) (losers : List ℕ)
      (c : Client api) (s : Store)
      → Outside api laws c
      → Settles b r w losers c (settle_battle api ranks battles players has_ranks b r w losers c s)
  unfolding settle_battle
  settle_battle-Settles none players has_ranks b r w losers c s h =
      Settles-refused b r w losers c s h
  settle_battle-Settles (some mysql) players has_ranks b r w losers c s h =
      if_intro (Settles b r w losers c)
        ((has_ranks && is_none players)
          || not (is_positive64 b)
          || not (is_positive64 r)
          || not (is_positive64 w))
        (λ _. Settles-refused b r w losers c s h)
        (λ good. elim (Option-cases (add_losers w (w ∷ []) losers)) [
          | inl e ↦ rw e (Settles-refused b r w losers c s h)
          | inr (ps, e) ↦
              let who = add_losers-Participants w losers ps (positive_winner _ b r w good) e in
              let out =
                apply_settlement-Outcome api laws mysql (battle_of b r w) (results_of b w ps) c h in
              let same = results-in_order b w losers ps who in
              rw e (
                Settles-After b r w losers ps c _ _ _ who
                  (subst
                    (λ rs.
                      Outcome api laws (battle_of b r w) rs c
                        (apply_settlement api mysql (battle_of b r w) (results_of b w ps) c))
                    same out)
                  (after_settlement-After has_ranks players ps _ _ s out.outside))
        ])
