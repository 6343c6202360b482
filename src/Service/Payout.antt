-- ===== src/Service/Payout.antt =====
-- The callback for a battle that is over, round after round, down to the tables of the database.
use cpp_game_room.Base.{
  map, ◌&&◌, ◌==◌, if_intro, ℕ, ◌≡◌, ◌≢◌, ◌⊎◌, inl, inr, refl, sym, ap, ◌∙◌, subst, Bool, true,
  false, not, ◌||◌, Option, none, some, List, [], ◌∷◌, if◌then◌else◌, arith,
}
use cpp_game_room.Base.Map.{Map, lookup, keys}
use cpp_game_room.Game.State.{EntityState}
use cpp_game_room.Game.Settlement.Participants.{occurs, Participants, result_for}
use cpp_game_room.Room.{Room}
use cpp_game_room.Game.Battle.{GameRoom}
use cpp_game_room.Game.Settlement.{RankService, battle_of}
use cpp_game_room.Game.Settlement.Safe.{SettledFor, Settles, settle_battle-Settles}
use cpp_game_room.Storage.Mysql.{MysqlApi, Client}
use cpp_game_room.Storage.Battles.Tables.{Tables, Transactional, Outside}
use cpp_game_room.Storage.Battles.Work.{effect}
use cpp_game_room.Storage.Battles.Verdict.{IsSettled, Unsettled}
use cpp_game_room.Storage.Battles.Effect.{effect-IsSettled}
use cpp_game_room.Storage.Battles.Once.{Unsettled-Closed, IsSettled-Closed, Settlement-IsSettled}
use cpp_game_room.Service.World.{World, Context}
use cpp_game_room.Service.Server.{Server, PendingSettlement, losers_of, settle_room}
use cpp_game_room.Service.Settling.{
  Attempted, waits, fails, succeeds, settled_with, settle_room-Attempted,
}

-- The tables are as before, or the battle was open and is paid out, once: 20 points for the winner
-- `w`, 10 less for each of the others, nobody twice.
abbrev pub PaidOnce : ℕ → ℕ → ℕ → List ℕ → Tables → Tables → Type 0
PaidOnce b r w others t t' =
    (t' ≡ t)
    ⊎ ((ps : List ℕ) × Participants w others ps
        × Unsettled (battle_of b r w) t
        × (effect (battle_of b r w) (map (result_for b w) ps) t ≡ some t'))

-- The losers are all players of the battle but the winner.
occurs-losers_of :
    {F : Type 0} (w p : ℕ) (m : Map (EntityState F))
    → occurs p (losers_of w m) ≡ (occurs p (keys m) && not (w == p))
unfolding losers_of keys
occurs-losers_of w p [] = refl
occurs-losers_of w p ((k, e) ∷ m) = let h = occurs-losers_of w p m in ground arith

everybody :
    {F : Type 0} (w : ℕ) (m : Map (EntityState F)) (ps : List ℕ)
    → Participants w (losers_of w m) ps
    → Participants w (keys m) ps
everybody w m ps h = record {
  once = h.once;
  whole = λ p. let x = h.whole p in let y = occurs-losers_of w p m in ground arith;
}

PaidOnce-SettledFor :
    {F : Type 0} (b r w : ℕ) (m : Map (EntityState F)) (t t' : Tables)
    → SettledFor b r w (losers_of w m) t t'
    → PaidOnce b r w (keys m) t t'
PaidOnce-SettledFor b r w m t t' (ps, e, inl (s, same)) = inl same
PaidOnce-SettledFor b r w m t t' (ps, e, inr (u, f)) = inr (ps, everybody w m ps e, u, f)

module _ (b r w : ℕ) (losers : List ℕ) where
  -- A battle that is paid out is not open any more.
  PaidOnce-trans :
      (t t' t'' : Tables)
      → PaidOnce b r w losers t t'
      → PaidOnce b r w losers t' t''
      → PaidOnce b r w losers t t''
  PaidOnce-trans t t' t'' (inl same) later = subst (λ x. PaidOnce b r w losers x t'') same later
  PaidOnce-trans t t' t'' (inr (ps, e, u, f)) (inl same) = inr (ps, e, u, f ∙ ap some (sym same))
  PaidOnce-trans t t' t'' (inr (ps, e, u, f)) (inr (ps', e', u', f')) = absurd (
      Unsettled-Closed (battle_of b r w) t'
        (IsSettled-Closed (battle_of b r w) t' (effect-IsSettled (battle_of b r w) _ t t' u f)) u')

abbrev pub is_done : Option PendingSettlement → Bool
is_done none = true
is_done (some p) = false

module _ (api : MysqlApi) (ranks : RankService) (ctx : Context) {F : Type 0} where
  open ranks use {Store}

  -- The callback at the times given, in the states of the services given, until the settlement has
  -- succeeded or an exception has left the callback.
  unfoldable pub settle_rounds :
      Room
      → GameRoom F
      → List (ℕ × World F)
      → Server F (Client api) Store
      → Server F (Client api) Store × Bool
  settle_rounds r g [] v = (v, true)
  settle_rounds r g ((now, w) ∷ rounds) v =
      let (v', ok) = settle_room api ranks ctx r g now (record v { world = w }) in
      let rest = settle_rounds r g rounds v' in
      if not ok || is_done (lookup g.room_id v'.pending) then (v', ok) else rest

module _ (api : MysqlApi) (laws : Transactional api) (ranks : RankService) (ctx : Context)
    {F : Type 0} where
  open laws use {durable}
  open ranks use {Store}

  -- What attempts to settle the battle `b` did.
  pub record Paid (b : ℕ) (g : GameRoom F) (v u : Server F (Client api) Store) : Type 0 where
    pub outside : Outside api laws u.mysql
    pub once :
        PaidOnce b g.room_id g.winner_id
          (keys g.state.players)
          (durable v.mysql.db)
          (durable u.mysql.db)
    -- The pending settlement keeps its id, or is gone, and then the battle is paid out.
    pub kept :
        ((q : PendingSettlement) × (lookup g.room_id u.pending ≡ some q) × (q.battle_id ≡ b))
        ⊎ ((lookup g.room_id u.pending ≡ none)
            × IsSettled (battle_of b g.room_id g.winner_id) (durable u.mysql.db))

  module _ (r : Room) (g : GameRoom F) where
    attempt-Settles :
        (b : ℕ) (v : Server F (Client api) Store)
        → Outside api laws v.mysql
        → Settles api laws ranks b g.room_id g.winner_id
            (losers_of g.winner_id g.state.players)
            v.mysql
            (settled_with api ranks ctx b g v)
    attempt-Settles b v h =
        settle_battle-Settles api laws ranks (some true) (some true) true b g.room_id g.winner_id
          (losers_of g.winner_id g.state.players) v.mysql v.store h

    attempt-PaidOnce :
        (b : ℕ) (v : Server F (Client api) Store) (c : Client api)
        → (settled_with api ranks ctx b g v).0.0 ≡ c
        → Outside api laws v.mysql
        → PaidOnce b g.room_id g.winner_id
            (keys g.state.players)
            (durable v.mysql.db)
            (durable c.db)
    attempt-PaidOnce b v c e h =
        let losers = keys g.state.players in
        subst
          (λ (x : Client api).
            PaidOnce b g.room_id g.winner_id losers (durable v.mysql.db) (durable x.db))
          e
          (elim (attempt-Settles b v h).safe [
            | inl same ↦ inl same
            | inr paid ↦ PaidOnce-SettledFor b g.room_id g.winner_id g.state.players _ _ paid
          ])

    attempt-Paid :
        (now : ℕ) (p : PendingSettlement) (v : Server F (Client api) Store)
        (s : Server F (Client api) Store × Bool)
        → Attempted api ranks ctx r g now p v s
        → Outside api laws v.mysql
        → Paid p.battle_id g v s.0
    attempt-Paid now p v _ (waits u early world mysql store pending) h = record {
      outside = subst (Outside api laws) (sym mysql) h;
      once = inl (ap (λ (c : Client api). durable c.db) mysql);
      kept = inl (p, pending, refl);
    }
    attempt-Paid now p v _ (fails u ok due answer after world pending) h =
        let a = attempt-Settles p.battle_id v h in
        let mysql : (settled_with api ranks ctx p.battle_id g v).0.0 ≡ u.mysql =
          ap (λ x. x.0) (sym after) in
        record {
          outside = subst (Outside api laws) mysql a.outside;
          once = attempt-PaidOnce p.battle_id v u.mysql mysql h;
          kept = inl (_, pending, refl);
        }
    attempt-Paid now p v _ (succeeds u due answer after world pending) h =
        let a = attempt-Settles p.battle_id v h in
        let mysql : (settled_with api ranks ctx p.battle_id g v).0.0 ≡ u.mysql =
          ap (λ x. x.0) (sym after) in
        let paid = a.sure answer in
        record {
          outside = subst (Outside api laws) mysql a.outside;
          once = attempt-PaidOnce p.battle_id v u.mysql mysql h;
          kept = inr (
            pending,
            subst
                (λ (c : Client api).
                  IsSettled (battle_of p.battle_id g.room_id g.winner_id) (durable c.db))
                mysql
                (Settlement-IsSettled (battle_of p.battle_id g.room_id g.winner_id) _ _ _ paid.2),
          );
        }

    Paid-trans :
        (b : ℕ) (v u t : Server F (Client api) Store) → Paid b g v u → Paid b g u t → Paid b g v t
    Paid-trans b v u t x y = record {
      outside = y.outside;
      once = PaidOnce-trans b g.room_id g.winner_id _ _ _ _ x.once y.once;
      kept = y.kept;
    }

    -- On a server whose transactions behave as documented, for a room whose pending settlement
    -- has a battle id, and from outside of a transaction with nothing uncommitted on the
    -- connection: however often the callback runs for the room, at whatever times and in whatever
    -- states of the services, and whatever fails, the tables are as before or the battle was open
    -- and is paid out once, with 20 points for the winner and 10 less for each other player of
    -- the battle, each once; the pending settlement keeps the id as long as none of the attempts
    -- has succeeded, and when it is gone the battle is settled for the winner.
    pub settle_rounds-Paid :
        (rounds : List (ℕ × World F)) (b : ℕ) (p : PendingSettlement)
        (v : Server F (Client api) Store)
        → lookup g.room_id v.pending ≡ some p
        → p.battle_id ≡ b
        → b ≢ 0
        → Outside api laws v.mysql
        → Paid b g v (settle_rounds api ranks ctx r g rounds v).0
    unfolding settle_rounds
    settle_rounds-Paid [] b p v known id set h = record {
      outside = h;
      once = inl refl;
      kept = inl (p, known, id);
    }
    settle_rounds-Paid ((now, w) ∷ rounds) b p v known id set h =
        let v' : Server F (Client api) Store = record v { world = w } in
        let s = settle_room api ranks ctx r g now v' in
        let x =
          attempt-Paid now p v' s
            (settle_room-Attempted api ranks ctx r g now p v' known (λ e. set (sym id ∙ e))) h in
        let first : Paid b g v s.0 =
          subst (λ i. Paid i g v s.0) id
            (record { outside = x.outside; once = x.once; kept = x.kept }) in
        if_intro (λ (t : Server F (Client api) Store × Bool). Paid b g v t.0)
          (not s.1 || is_done (lookup g.room_id s.0.pending)) (λ k. first)
          (λ k. elim first.kept [
            | inl (q, still, same) ↦
                Paid-trans b v s.0 (settle_rounds api ranks ctx r g rounds s.0).0 first
                  (settle_rounds-Paid rounds b q s.0 still same set first.outside)
            | inr (gone, settled) ↦ absurd (ground (arith, k, ap is_done gone))
          ])
