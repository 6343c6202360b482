-- ===== src/Service/Ticks.antt =====
-- The rounds of the game loop: the maps still agree.
use cpp_game_room.Base.{
  if_intro, ℕ, ◌≡◌, refl, sym, ap, ◌∙◌, subst, Bool, true, false, not, Option, none, some, List, [],
  ◌∷◌, ◌==◌, ltb, arith,
}
use cpp_game_room.Base.Map.{Map, lookup, has, keys}
use cpp_game_room.Room.{Room, set_settlement, close}
use cpp_game_room.Game.Float.{FloatOps}
use cpp_game_room.Game.Battle.{GameRoom, tick}
use cpp_game_room.Game.Settlement.{RankService}
use cpp_game_room.Storage.Mysql.{MysqlApi, Client}
use cpp_game_room.Service.World.{World, Context, game_over_notify, broadcast_to}
use cpp_game_room.Service.Rooms.{get_room, put_room, add_battle}
use cpp_game_room.Service.Server.{
  Server, PendingSettlement, battle_id_for, build_notify, losers_of, finish_room, after_attempt,
  attempt, settle_room, tick_callback, tick_battle, tick_battles, loop_round, pending_or_new,
}
use cpp_game_room.Service.Core.{Core, core, core-broadcast_to}
use cpp_game_room.Service.Consistent.{Present, insert-new}
use cpp_game_room.Service.Requests.{Good, same-Good}
use cpp_game_room.Service.Stored.{
  Stored, Running, lookup-Running, get_room-Stored, put_room-Good, add_battle-Good,
  check_game_over-room_id,
}
use cpp_game_room.Service.Handlers.{remove_room-Good}

tick-room_id : (ops : FloatOps) (g : GameRoom ops.Float) → (tick ops g).room_id ≡ g.room_id
unfolding tick
tick-room_id ops g =
    if_intro (λ (b : GameRoom ops.Float). b.room_id ≡ g.room_id) g.game_over (λ h. refl)
      (λ h. check_game_over-room_id _)

set_settlement-Kept :
    (r : Room) → ((set_settlement r).room_id ≡ r.room_id) × ((set_settlement r).players ≡ r.players)
unfolding set_settlement
set_settlement-Kept r = (ground arith, ground arith)

module _ (api : MysqlApi) (ranks : RankService) (ctx : Context) (loop_set : ctx.has_loop ≡ true)
    {F : Type 0} where
  open ranks use {Store}

  finish_room-Good :
      (r : Room) (g : GameRoom F) (w : World F)
      → Stored (core w) (some r)
      → Good 0 (core w)
      → Good 0 (core (finish_room api ranks ctx r g w))
  unfolding finish_room
  finish_room-Good r g w e v =
      let over = game_over_notify g.room_id g.winner_id (losers_of g.winner_id g.state.players) in
      let w' = broadcast_to ctx r over w in
      let same = core-broadcast_to ctx r over w in
      remove_room-Good ctx loop_set 0 g.room_id (put_room (close r) w') (
        put_room-Good 0 r (close r) w' (same-Good 0 same v)
          (ap (λ (c : Core F). lookup r.room_id c.rooms) same ∙ e) (unfold close in refl)
          (λ p. unfold close in refl))

  after_attempt-Good :
      (r : Room) (g : GameRoom F) (w : World F) (pending : Map PendingSettlement)
      (result : (Client api × Store) × Option Bool)
      → Stored (core w) (some r)
      → Good 0 (core w)
      → Good 0 (core (after_attempt api ranks ctx r g w pending result).0.world)
  unfolding after_attempt
  after_attempt-Good r g w pending (s, none) e v = v
  after_attempt-Good r g w pending (s, some false) e v = v
  after_attempt-Good r g w pending (s, some true) e v = finish_room-Good r g w e v

  settle_room-Good :
      (r : Room) (g : GameRoom F) (now : ℕ) (v : Server F (Client api) Store)
      → Stored (core v.world) (some r)
      → Good 0 (core v.world)
      → Good 0 (core (settle_room api ranks ctx r g now v).0.world)
  unfolding settle_room attempt
  settle_room-Good r g now v e h =
      let p = pending_or_new (lookup g.room_id v.pending) in
      let (c, battle_id) = battle_id_for api g.room_id p.battle_id v.mysql in
      if_intro (λ (s : Server F (Client api) Store × Bool). Good 0 (core s.0.world))
        (ltb now p.next_attempt) (λ k. h)
        (λ k.
          if_intro (λ (s : Server F (Client api) Store × Bool). Good 0 (core s.0.world))
            (battle_id == 0) (λ l. h) (λ l. after_attempt-Good r g v.world _ _ e h))

  tick_callback-Good :
      (o : Option Room) (g : GameRoom F) (now : ℕ) (v : Server F (Client api) Store)
      → Stored (core v.world) o
      → Good 0 (core v.world)
      → Good 0 (core (tick_callback api ranks ctx o g now v).0.world)
  unfolding tick_callback
  tick_callback-Good none g now v e h = h
  tick_callback-Good (some r) g now v e h =
      let m = build_notify g.room_id g.state in
      let w = broadcast_to ctx r m v.world in
      let same = core-broadcast_to ctx r m v.world in
      let h' = same-Good 0 same h in
      let r' = set_settlement r in
      let kept = set_settlement-Kept r in
      if_intro (λ (s : Server F (Client api) Store × Bool). Good 0 (core s.0.world))
        (not g.game_over) (λ k. h')
        (λ k. settle_room-Good r' g now _ (insert-new r'.room_id r' w.rooms) (
          put_room-Good 0 r r' w h' (ap (λ (c : Core F). lookup r.room_id c.rooms) same ∙ e) kept.0
            (λ p. ap (has p) kept.1)))

module _ (api : MysqlApi) (ranks : RankService) (ctx : Context) (loop_set : ctx.has_loop ≡ true)
    (ops : FloatOps) where
  open ranks use {Store}
  open ops use {Float}

  tick_battle-Good :
      (o : Option (GameRoom Float)) (now : ℕ) (v : Server Float (Client api) Store)
      → Running (core v.world) o
      → Good 0 (core v.world)
      → Good 0 (core (tick_battle api ranks ctx ops o now v).0.world)
  unfolding tick_battle
  tick_battle-Good none now v e h = h
  tick_battle-Good (some g) now v e h =
      let g' = tick ops g in
      let w = add_battle g' v.world in
      let h' =
        add_battle-Good 0 g' v.world h
          (subst (λ i. Present i v.world.rooms) (sym (tick-room_id ops g)) e) in
      tick_callback-Good api ranks ctx loop_set (get_room g'.room_id w) g' now _
        (get_room-Stored g'.room_id w h'.0) h'

  tick_battles-Good :
      (ids : List ℕ) (now : ℕ) (v : Server Float (Client api) Store)
      → Good 0 (core v.world)
      → Good 0 (core (tick_battles api ranks ctx ops ids now v).0.world)
  unfolding tick_battles
  tick_battles-Good [] now v h = h
  tick_battles-Good (id ∷ ids) now v h =
      let r = tick_battle api ranks ctx ops (lookup id v.world.battles) now v in
      let h' =
        tick_battle-Good (lookup id v.world.battles) now v (lookup-Running (core v.world) h.0 id)
          h in
      if_intro (λ (s : Server Float (Client api) Store × Bool). Good 0 (core s.0.world)) (not r.1)
        (λ k. h') (λ k. tick_battles-Good ids now r.0 h')

  pub loop_round-Good :
      (now : ℕ) (v : Server Float (Client api) Store)
      → Good 0 (core v.world)
      → Good 0 (core (loop_round api ranks ctx ops now v).0.world)
  unfolding loop_round
  loop_round-Good now v h = tick_battles-Good (keys v.world.battles) now v h
