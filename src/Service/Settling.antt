-- ===== src/Service/Settling.antt =====
-- GameServer's callback for a battle that is over, once the battle has its id in MySQL.
use cpp_game_room.Base.{
  if_intro, ℕ, ◌+◌, ◌%◌, ◌^◌, ◌<◌, ◌≤◌, ◌≡◌, ◌≢◌, refl, sym, ap, Bool, true, false, Option, none,
  some, ◌==◌, ltb, if◌then◌else◌, arith, ne_test, ==_refl,
}
use cpp_game_room.Base.Map.{Map, lookup, insert}
use cpp_game_room.Room.{Room}
use cpp_game_room.Game.Battle.{GameRoom}
use cpp_game_room.Game.Settlement.{RankService, settle_battle}
use cpp_game_room.Storage.Mysql.{MysqlApi, Client}
use cpp_game_room.Service.World.{Context}
use cpp_game_room.Service.Server.{
  Server, PendingSettlement, battle_id_for, losers_of, finish_room, after_attempt, attempt,
  settle_room,
}
use cpp_game_room.Service.Consistent.{insert-new, remove-same}

module _ (api : MysqlApi) (ranks : RankService) (ctx : Context) {F : Type 0} where
  open ranks use {Store}

  -- SettleBattle, with the id that stands in the pending settlement.
  abbrev pub settled_with :
      ℕ → GameRoom F → Server F (Client api) Store → (Client api × Store) × Option Bool
  settled_with battle_id g v =
      settle_battle api ranks (some true) (some true) true battle_id g.room_id g.winner_id
        (losers_of g.winner_id g.state.players) v.mysql v.store

  -- The three ways in which the callback ends: before the time of the next attempt; with an attempt
  -- that did not succeed, which throws just if SettleBattle does; and with one that did.
  pub data Attempted (r : Room) (g : GameRoom F) (now : ℕ) (p : PendingSettlement)
      (v : Server F (Client api) Store) : Server F (Client api) Store × Bool → Type 0 where
    waits :
        (u : Server F (Client api) Store)
        → now < p.next_attempt
        → u.world ≡ v.world
        → u.mysql ≡ v.mysql
        → u.store ≡ v.store
        → lookup g.room_id u.pending ≡ some p
        → Attempted r g now p v (u, true)
    fails :
        (u : Server F (Client api) Store) (ok : Bool)
        → p.next_attempt ≤ now
        → (settled_with p.battle_id g v).1 ≡ (if ok then some false else none)
        → (u.mysql, u.store) ≡ (settled_with p.battle_id g v).0
        → u.world ≡ v.world
        → lookup g.room_id u.pending
          ≡ some (record { battle_id = p.battle_id; next_attempt = (now + 1000000000) % 2 ^ 64 })
        → Attempted r g now p v (u, ok)
    succeeds :
        (u : Server F (Client api) Store)
        → p.next_attempt ≤ now
        → (settled_with p.battle_id g v).1 ≡ some true
        → (u.mysql, u.store) ≡ (settled_with p.battle_id g v).0
        → u.world ≡ finish_room api ranks ctx r g v.world
        → lookup g.room_id u.pending ≡ none
        → Attempted r g now p v (u, true)

  after_attempt-Attempted :
      (r : Room) (g : GameRoom F) (now : ℕ) (p : PendingSettlement)
      (v : Server F (Client api) Store) (pending : Map PendingSettlement)
      (result : (Client api × Store) × Option Bool)
      → p.next_attempt ≤ now
      → settled_with p.battle_id g v ≡ result
      → lookup g.room_id pending
        ≡ some (record { battle_id = p.battle_id; next_attempt = (now + 1000000000) % 2 ^ 64 })
      → Attempted r g now p v (after_attempt api ranks ctx r g v.world pending result)
  unfolding after_attempt
  after_attempt-Attempted r g now p v pending (s, none) due e h =
      fails _ false due (ap (λ x. x.1) e) (sym (ap (λ x. x.0) e)) refl h
  after_attempt-Attempted r g now p v pending (s, some false) due e h =
      fails _ true due (ap (λ x. x.1) e) (sym (ap (λ x. x.0) e)) refl h
  after_attempt-Attempted r g now p v pending (s, some true) due e h =
      succeeds _ due (ap (λ x. x.1) e) (sym (ap (λ x. x.0) e)) refl
        (remove-same g.room_id g.room_id pending (==_refl g.room_id))

  -- The callback ends in one of these ways.
  pub settle_room-Attempted :
      (r : Room) (g : GameRoom F) (now : ℕ) (p : PendingSettlement)
      (v : Server F (Client api) Store)
      → lookup g.room_id v.pending ≡ some p
      → p.battle_id ≢ 0
      → Attempted r g now p v (settle_room api ranks ctx r g now v)
  unfolding settle_room attempt battle_id_for
  settle_room-Attempted r g now p v known set =
      let p' : PendingSettlement = record p { next_attempt = (now + 1000000000) % 2 ^ 64 } in
      let pending' = insert g.room_id p' (insert g.room_id p' v.pending) in
      rw (known, ne_test p.battle_id 0 set)
        (if_intro (λ (s : Server F (Client api) Store × Bool). Attempted r g now p v s)
          (ltb now p.next_attempt)
          (λ h. waits _ (ground arith) refl refl refl (insert-new g.room_id p v.pending))
          (λ h.
            if_intro (λ (s : Server F (Client api) Store × Bool). Attempted r g now p v s)
              (p.battle_id == 0) (λ k. absurd (cc (k, ne_test p.battle_id 0 set)))
              (λ k.
                after_attempt-Attempted r g now p v pending' (settled_with p.battle_id g v)
                  (ground arith) refl (insert-new g.room_id p' (insert g.room_id p' v.pending)))))
